-- ===== src/Server/Live.antt =====
-- The connections that the entries of the cull list name, while connections come and go
-- (src/connectionmanager.cpp, src/cull_list.cpp).
use hottpd.Base.{
  ℕ, ◌==◌, ◌≡◌, refl, ◌∙◌, ap, true, false, none, List, [], ◌∷◌, ◌++◌, All, arith, Bool-cases, inl,
  inr, ==_iff,
}
use hottpd.Server.{Client, find_client, remove, occurrences}
use hottpd.Server.Booking.{is_live}

pub is_live-concat :
    (x : ℕ) (clients : List Client) (d : Client)
    → is_live clients x ≡ true
    → is_live (clients ++ d ∷ []) x ≡ true
unfolding find_client
is_live-concat x [] d h = ground (arith, h)
is_live-concat x (c ∷ clients) d h = ground (arith, is_live-concat x clients d, h)

-- No entry of the cull list is at an address that is free.
pub occurrences-free :
    (clients : List Client) (a : ℕ) (culls : List ℕ)
    → find_client a clients ≡ none
    → All (λ x. is_live clients x ≡ true) culls
    → occurrences a culls ≡ 0
occurrences-free clients a [] n h = refl
occurrences-free clients a (x ∷ culls) n h = elim (Bool-cases (x == a)) [
  | inl e ↦
      let dead : is_live clients x ≡ false =
        ap (λ y. is_live clients y) ((==_iff x a).0 e) ∙ rw (is_live, n) refl in
      ground (arith, dead, h.0)
  | inr e ↦ rw e (occurrences-free clients a culls n h.1)
]

pub is_live-remove :
    (a x : ℕ) (clients : List Client)
    → (x == a) ≡ false
    → is_live clients x ≡ true
    → is_live (remove a clients) x ≡ true
unfolding find_client remove
is_live-remove a x [] n h = h
is_live-remove a x (c ∷ clients) n h = ground (arith, is_live-remove a x clients n, h)

pub All-is_live :
    (a : ℕ) (clients : List Client) (culls : List ℕ)
    → occurrences a culls ≡ 0
    → All (λ x. is_live clients x ≡ true) culls
    → All (λ x. is_live (remove a clients) x ≡ true) culls
All-is_live a clients [] n h = tt
All-is_live a clients (x ∷ culls) n h = elim (Bool-cases (x == a)) [
  | inl e ↦ ground (arith, e, n)
  | inr e ↦ (is_live-remove a x clients e h.0, All-is_live a clients culls (rw e at n) h.1)
]
