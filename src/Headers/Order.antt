-- ===== src/Headers/Order.antt =====
-- The order of header names: lexicographic, on signed bytes in lower case.
use hottpd.Base.{
  ℕ, ◌+◌, ◌%◌, Bool, true, false, ◌≡◌, ◌↔◌, refl, [], ◌∷◌, ltb, if◌then◌else◌, Bytes, tolower,
  arith,
}

pub data Cmp : Type 0 where
  lt eq gt : Cmp

-- `tolower` of a signed `char`, moved up by 128 so that it is a number.
unfoldable pub fold_byte : ℕ → ℕ
unfolding tolower
fold_byte c = (tolower c + 128) % 256

abbrev pub fold_name : Bytes → Bytes
fold_name [] = []
fold_name (c ∷ s) = fold_byte c ∷ fold_name s

-- `lt` when `operator()` holds of the two names, `gt` when it holds of them the other way round.
unfoldable pub compare_names : Bytes → Bytes → Cmp
unfolding fold_byte
compare_names [] [] = eq
compare_names [] (d ∷ t) = lt
compare_names (c ∷ s) [] = gt
compare_names (c ∷ s) (d ∷ t) =
    if ltb (fold_byte c) (fold_byte d)
    then lt
    else if ltb (fold_byte d) (fold_byte c)
    then gt
    else compare_names s t

unfoldable pub same_name : Bytes → Bytes → Bool
unfolding compare_names
same_name a b = elim (compare_names a b) [ eq ↦ true | _ ↦ false ]

compare_names-eq : (a b : Bytes) → compare_names a b ≡ eq → fold_name a ≡ fold_name b
unfolding compare_names
compare_names-eq [] [] h = refl
compare_names-eq [] (d ∷ t) h = cc
compare_names-eq (c ∷ s) [] h = cc
compare_names-eq (c ∷ s) (d ∷ t) h = ground (arith, compare_names-eq s t)

eq-compare_names : (a b : Bytes) → fold_name a ≡ fold_name b → compare_names a b ≡ eq
unfolding compare_names
eq-compare_names [] [] h = refl
eq-compare_names [] (d ∷ t) h = cc
eq-compare_names (c ∷ s) [] h = cc
eq-compare_names (c ∷ s) (d ∷ t) h = ground (arith, eq-compare_names s t)

pub same_name_iff : (a b : Bytes) → (same_name a b ≡ true) ↔ (fold_name a ≡ fold_name b)
unfolding same_name
same_name_iff a b = ground (arith, compare_names-eq a b, eq-compare_names a b)
