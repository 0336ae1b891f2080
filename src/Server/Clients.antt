-- ===== src/Server/Clients.antt =====
-- Lists of connections by address: `local_connections` and the cull list.
use hottpd.Base.{
  ℕ, zero, suc, ◌+◌, ◌==◌, ◌≡◌, ◌≤◌, refl, sym, ◌∙◌, ap, false, none, some, List, [], ◌∷◌, ◌++◌,
  if◌then◌else◌, length, All, arith, Bool-cases, inl, inr, ==_iff,
}
use hottpd.Connection.{Connection}
use hottpd.Server.{Client, find_client, store, remove, occurrences, times_over}

-- No two connections have the same address.
abbrev pub Distinct : List Client → Type 0
Distinct [] = Unit
Distinct (c ∷ clients) = (find_client c.address clients ≡ none) × Distinct clients

pub find_client-store :
    (a b : ℕ) (conn : Connection) (clients : List Client)
    → find_client a clients ≡ none
    → find_client a (store b conn clients) ≡ none
unfolding find_client store
find_client-store a b conn [] h = refl
find_client-store a b conn (c ∷ clients) h = ground (arith, find_client-store a b conn clients)

pub store-Distinct :
    (a : ℕ) (conn : Connection) (clients : List Client)
    → Distinct clients
    → Distinct (store a conn clients)
unfolding store
store-Distinct a conn [] h = tt
store-Distinct a conn (c ∷ clients) h =
    ground
      (arith, store-Distinct a conn clients h.1, find_client-store c.address a conn clients h.0)

find_client-remove :
    (a b : ℕ) (clients : List Client)
    → find_client a clients ≡ none
    → find_client a (remove b clients) ≡ none
unfolding find_client remove
find_client-remove a b [] h = refl
find_client-remove a b (c ∷ clients) h = ground (arith, find_client-remove a b clients)

pub remove-Distinct :
    (a : ℕ) (clients : List Client) → Distinct clients → Distinct (remove a clients)
unfolding remove
remove-Distinct a [] h = tt
remove-Distinct a (c ∷ clients) h =
    ground (arith, remove-Distinct a clients h.1, find_client-remove c.address a clients h.0)

find_client-concat :
    (a : ℕ) (clients : List Client) (d : Client)
    → find_client a clients ≡ none
    → (d.address == a) ≡ false
    → find_client a (clients ++ d ∷ []) ≡ none
unfolding find_client
find_client-concat a [] d h n = ground arith
find_client-concat a (c ∷ clients) d h n = ground (arith, find_client-concat a clients d)

pub concat-Distinct :
    (clients : List Client) (d : Client)
    → find_client d.address clients ≡ none
    → Distinct clients
    → Distinct (clients ++ d ∷ [])
unfolding find_client
concat-Distinct [] d h s = (refl, tt)
concat-Distinct (c ∷ clients) d h s =
    ground (arith, concat-Distinct clients d, find_client-concat c.address clients d s.0)

-- A property of connections that depends on what is at an address.
pub All-remove :
    (P : Client → Type 0) (a : ℕ) (clients : List Client) → All P clients → All P (remove a clients)
unfolding remove
All-remove P a [] h = tt
All-remove P a (c ∷ clients) h = elim (Bool-cases (c.address == a)) [
  | inl e ↦ rw e h.1
  | inr e ↦ rw e (h.0, All-remove P a clients h.1)
]

pub All-concat :
    {A : Type 0} (P : A → Type 0) (xs : List A) (x : A) → All P xs → P x → All P (xs ++ x ∷ [])
All-concat P [] x h p = (p, tt)
All-concat P (y ∷ xs) x h p = (h.0, All-concat P xs x h.1 p)

pub All-map :
    {A : Type 0} (P Q : A → Type 0) (xs : List A) → ((x : A) → P x → Q x) → All P xs → All Q xs
All-map P Q [] f h = tt
All-map P Q (x ∷ xs) f h = (f x h.0, All-map P Q xs f h.1)

-- All connections but the one at the address, where the addresses are distinct.
pub All-others :
    (P Q : Client → Type 0) (a : ℕ) (clients : List Client)
    → find_client a clients ≡ none
    → ((c : Client) → (c.address == a) ≡ false → P c → Q c)
    → All P clients
    → All Q clients
unfolding find_client
All-others P Q a [] n f h = tt
All-others P Q a (c ∷ clients) n f h = elim (Bool-cases (c.address == a)) [
  | inl e ↦ ground (arith, e)
  | inr e ↦ (f c e h.0, All-others P Q a clients (rw e at n) f h.1)
]

pub All-remove_others :
    (P Q : Client → Type 0) (a : ℕ) (clients : List Client)
    → Distinct clients
    → ((c : Client) → (c.address == a) ≡ false → P c → Q c)
    → All P clients
    → All Q (remove a clients)
unfolding remove
All-remove_others P Q a [] d f h = tt
All-remove_others P Q a (c ∷ clients) d f h = elim (Bool-cases (c.address == a)) [
  | inl e ↦
      let same : c.address ≡ a = (==_iff c.address a).0 e in
      rw e (All-others P Q a clients (ap (λ x. find_client x clients) (sym same) ∙ d.0) f h.1)
  | inr e ↦ rw e (f c e h.0, All-remove_others P Q a clients d.1 f h.1)
]

pub All-store :
    (P Q : Client → Type 0) (a : ℕ) (conn : Connection) (clients : List Client)
    → Distinct clients
    → ((c : Client) → find_client a clients ≡ some c → P c → Q (record c { conn = conn }))
    → ((c : Client) → (c.address == a) ≡ false → P c → Q c)
    → All P clients
    → All Q (store a conn clients)
unfolding store find_client
All-store P Q a conn [] d f g h = tt
All-store P Q a conn (c ∷ clients) d f g h = elim (Bool-cases (c.address == a)) [
  | inl e ↦
      let same : c.address ≡ a = (==_iff c.address a).0 e in
      rw e (
        f c (rw e refl) h.0,
        All-others P Q a clients (ap (λ x. find_client x clients) (sym same) ∙ d.0) g h.1,
      )
  | inr e ↦ rw e (g c e h.0, All-store P Q a conn clients d.1 (λ c' r. f c' (rw e r)) g h.1)
]

pub All-find :
    (P : Client → Type 0) (a : ℕ) (clients : List Client) {c : Client}
    → All P clients
    → find_client a clients ≡ some c
    → P c × (c.address ≡ a)
unfolding find_client
All-find P a [] h e = ground (arith, e)
All-find P a (d ∷ clients) {c} h e = elim (Bool-cases (d.address == a)) [
  | inl same ↦
      let found : d ≡ c = ap (λ o. elim o [ none ↦ d | some x ↦ x ]) (rw same at e) in
      let both : P d × (d.address ≡ a) = (h.0, (==_iff d.address a).0 same) in rw found at both
  | inr other ↦ All-find P a clients h.1 (rw other at e)
]

pub length-store :
    (a : ℕ) (conn : Connection) (clients : List Client)
    → length (store a conn clients) ≡ length clients
unfolding store
length-store a conn [] = refl
length-store a conn (c ∷ clients) = ground (arith, length-store a conn clients)

pub length-remove : (a : ℕ) (clients : List Client) → length (remove a clients) ≤ length clients
unfolding remove
length-remove a [] = omega arith
length-remove a (c ∷ clients) = ground (arith, length-remove a clients)

pub occurrences-append :
    (a : ℕ) (xs ys : List ℕ) → occurrences a (xs ++ ys) ≡ occurrences a xs + occurrences a ys
occurrences-append a [] ys = omega arith
occurrences-append a (x ∷ xs) ys = ground (arith, occurrences-append a xs ys)

pub occurrences-times_over :
    (a b n : ℕ) → occurrences a (times_over n b) ≡ (if b == a then n else 0)
occurrences-times_over a b zero = ground arith
occurrences-times_over a b (suc n) = ground (arith, occurrences-times_over a b n)
