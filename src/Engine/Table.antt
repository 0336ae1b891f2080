-- ===== src/Engine/Table.antt =====
-- The table of the epoll engine and its count.
use hottpd.Base.{
  ℕ, zero, suc, ◌+◌, ◌-◌, ◌%◌, ◌^◌, ◌<◌, ◌≤◌, ◌≡◌, refl, ◌∙◌, ap, Bool, true, false, ◌&&◌, Option,
  none, some, List, [], ◌∷◌, ltb, if◌then◌else◌, length, get_elem?, set, arith,
}
use mathlib.Core.Bool.{not}
use hottpd.Engine.{
  Control, ctl_add, ctl_del, Engine, Handler, is_full, register, add_fd, unregister, del_fd,
}

-- How many descriptors have a handler.
abbrev pub registered : List (Option ℕ) → ℕ
registered [] = 0
registered (none ∷ ref) = registered ref
registered (some a ∷ ref) = suc (registered ref)

pub record Inv {World : Type 0} (max : ℕ) (e : Engine World) : Type 0 where
  pub whole : length e.ref ≡ max
  pub counted : e.current_set_size ≡ registered e.ref

-- The call stays within the table and keeps what `P` says.
abbrev pub Within : {A : Type 0} → (A → Type 0) → Option A → Type 0
Within P none = ⊥
Within P (some a) = P a

if-Within :
    {A : Type 0} (P : A → Type 0) (b : Bool) (x y : Option A)
    → Within P x
    → Within P y
    → Within P (if b then x else y)
if-Within P true x y i j = i
if-Within P false x y i j = j

length-set : {A : Type 0} (xs : List A) (i : ℕ) (v : A) → length (set xs i v) ≡ length xs
length-set [] i v = refl
length-set (x ∷ xs) zero v = refl
length-set (x ∷ xs) (suc i) v = ap suc (length-set xs i v)

get_elem?-within :
    {A : Type 0} (xs : List A) (i : ℕ) → i < length xs → (x : A) × (get_elem? xs i ≡ some x)
get_elem?-within [] i h = absurd (omega arith)
get_elem?-within (x ∷ xs) zero h = (x, refl)
get_elem?-within (x ∷ xs) (suc i) h = get_elem?-within xs i (omega arith)

registered-le : (ref : List (Option ℕ)) → registered ref ≤ length ref
registered-le [] = omega arith
registered-le (none ∷ ref) = omega (arith, registered-le ref)
registered-le (some a ∷ ref) = omega (arith, registered-le ref)

registered-add :
    (ref : List (Option ℕ)) (n a : ℕ)
    → get_elem? ref n ≡ some none
    → registered (set ref n (some a)) ≡ registered ref + 1
registered-add [] n a h = ground arith
registered-add (none ∷ ref) zero a h = omega arith
registered-add (some b ∷ ref) zero a h = ground arith
registered-add (none ∷ ref) (suc n) a h = registered-add ref n a h
registered-add (some b ∷ ref) (suc n) a h = omega (arith, registered-add ref n a h)

registered-remove :
    (ref : List (Option ℕ)) (n a : ℕ)
    → get_elem? ref n ≡ some (some a)
    → registered (set ref n none) + 1 ≡ registered ref
registered-remove [] n a h = ground arith
registered-remove (none ∷ ref) zero a h = ground arith
registered-remove (some b ∷ ref) zero a h = omega arith
registered-remove (none ∷ ref) (suc n) a h = registered-remove ref n a h
registered-remove (some b ∷ ref) (suc n) a h = omega (arith, registered-remove ref n a h)

module _ {World : Type 0} (epoll_ctl : World → Control → ℕ → Bool → Bool × World) where
  abbrev pub Kept : ℕ → Bool × Engine World → Type 0
  Kept max p = Inv max p.1

  register-Inv :
      (max : ℕ) (eh : Handler) (n : ℕ) (e : Engine World)
      → max < 2 ^ 31
      → get_elem? e.ref n ≡ some none
      → Inv max e
      → Inv max (register epoll_ctl eh n e).1
  unfolding register
  register-Inv max eh n e small h i =
      let answer : Bool × World = epoll_ctl e.kernel ctl_add n eh.readable in
      elim answer.0
        as (λ b. Inv max (
          if b
          then record e {
            ref = set e.ref n (some eh.address);
            current_set_size = (e.current_set_size + 1) % 2 ^ 32;
            kernel = answer.1;
          }
          else record e { kernel = answer.1 })) [
            | true ↦ record {
              whole = length-set e.ref n (some eh.address) ∙ i.whole;
              counted = omega (
                arith,
                i.counted,
                i.whole,
                registered-le e.ref,
                registered-add e.ref n eh.address h,
              );
            }
            | false ↦ record { whole = i.whole; counted = i.counted }
          ]

  -- For a descriptor below the size of the table, `AddFd` stays within the table, and the count
  -- stays the number of registered descriptors, for a table of fewer than 2^31.
  pub add_fd-Inv :
      (max n : ℕ) (eh : Handler) (e : Engine World)
      → max < 2 ^ 31
      → n < max
      → eh.fd ≡ some n
      → Inv max e
      → Within (Kept max) (add_fd epoll_ctl max eh e)
  unfolding add_fd
  add_fd-Inv max n eh e small h at_n i =
      let (held, at_ref) = get_elem?-within e.ref n (omega (arith, i.whole)) in
      let looked : Within (Kept max)
          (elim held [ some _ ↦ some (false, e) | none ↦ some (register epoll_ctl eh n e) ]) =
        elim held
            as (λ o.
              get_elem? e.ref n ≡ some o
              → Within (Kept max)
                  (elim o [ some _ ↦ some (false, e) | none ↦ some (register epoll_ctl eh n e) ])) [
                    | some _ ↦ λ r. i
                    | none ↦ λ r. register-Inv max eh n e small r i
                  ]
          at_ref in
      rw (add_fd, at_n, at_ref)
        (if-Within (Kept max) (ltb max n) _ _ i
          (if-Within (Kept max) (is_full max e.current_set_size) _ _ i looked))

  -- For a descriptor that is registered, `DelFd` stays within the table, and the count stays the
  -- number of registered descriptors, for a table of fewer than 2^31.
  pub del_fd-Inv :
      (max n a : ℕ) (eh : Handler) (force : Bool) (e : Engine World)
      → max < 2 ^ 31
      → eh.fd ≡ some n
      → get_elem? e.ref n ≡ some (some a)
      → Inv max e
      → Within (Kept max) (del_fd epoll_ctl max eh force e)
  unfolding del_fd unregister
  del_fd-Inv max n a eh force e small at_n here i =
      let answer : Bool × World = epoll_ctl e.kernel ctl_del n eh.readable in
      let gone : Within (Kept max) (
          some (
            true,
            record e {
              ref = set e.ref n none;
              current_set_size = (e.current_set_size + (2 ^ 32 - 1)) % 2 ^ 32;
              kernel = answer.1;
            },
          )) =
        record {
          whole = length-set e.ref n none ∙ i.whole;
          counted =
              omega
                (arith, i.counted, i.whole, registered-le e.ref, registered-remove e.ref n a here);
        } in
      let failed : Within (Kept max) (some (false, record e { kernel = answer.1 })) = record {
        whole = i.whole;
        counted = i.counted;
      } in
      rw (del_fd, at_n, unregister, here)
        (if-Within (Kept max) (ltb max n) _ _ i
          (if-Within (Kept max) (not answer.0 && not force) _ _ failed gone))
