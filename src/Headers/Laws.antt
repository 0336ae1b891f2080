-- ===== src/Headers/Laws.antt =====
-- The laws of `HTTPHeaders` as a map from names without case to values.
use hottpd.Base.{
  ◌≡◌, refl, ◌∙◌, true, false, none, some, [], ◌∷◌, if◌then◌else◌, Bytes, arith, Bool-cases, ◌⊎◌,
  inl, inr,
}
use hottpd.Headers.Order.{lt, eq, gt, Cmp, compare_names}
use hottpd.Headers.{
  Headers, same_name, same_name_iff, set_header, find, is_set, create_header, remove_header,
}

-- A name is in one class with at most one of two names that differ.
same_name_trans : (a b c : Bytes) → same_name a b ≡ true → same_name a c ≡ same_name b c
same_name_trans a b c h = ground (arith, same_name_iff a b, same_name_iff a c, same_name_iff b c)

same_name_apart :
    (a b c : Bytes) → same_name b c ≡ false → same_name a b ≡ true → same_name a c ≡ false
same_name_apart a b c h e = same_name_trans a b c e ∙ h

pub same_name_refl : (a : Bytes) → same_name a a ≡ true
same_name_refl a = (same_name_iff a a).1 refl

same_name_congr : (n a b : Bytes) → same_name a b ≡ true → same_name n b ≡ same_name n a
same_name_congr n a b h = ground (arith, same_name_iff a b, same_name_iff n a, same_name_iff n b)

Cmp-cases : (c : Cmp) → (c ≡ lt) ⊎ (c ≡ eq) ⊎ (c ≡ gt)
Cmp-cases lt = inl refl
Cmp-cases eq = inr (inl refl)
Cmp-cases gt = inr (inr refl)

same_of_compare : (a b : Bytes) → compare_names a b ≡ eq → same_name a b ≡ true
unfolding same_name
same_of_compare a b e = rw (e, same_name)

not_same_of_compare : (a b : Bytes) → compare_names a b ≡ gt → same_name a b ≡ false
unfolding same_name
not_same_of_compare a b e = rw (e, same_name)

-- After `SetHeader(m, v)` the name `n` has the value `v` if it is `m` up to case, and else what it had.
pub find-set_header :
    (n m v : Bytes) (hs : Headers)
    → find n (set_header m v hs) ≡ (if same_name n m then some v else find n hs)
unfolding find set_header
find-set_header n m v [] = refl
find-set_header n m v (h ∷ hs) = elim (Cmp-cases (compare_names m h.name)) [
  | inl less ↦ rw (less, set_header) refl
  | inr (inl same) ↦
      rw (same, set_header)
        (ground (arith, same_name_congr n m h.name (same_of_compare m h.name same)))
  | inr (inr more) ↦
      rw (more, set_header)
        (ground (
          arith,
          find-set_header n m v hs,
          same_name_apart n m h.name (not_same_of_compare m h.name more),
        ))
]

-- After `RemoveHeader(m)` the name `n` is absent if it is `m` up to case, and else has what it had.
pub find-remove_header :
    (n m : Bytes) (hs : Headers)
    → find n (remove_header m hs) ≡ (if same_name n m then none else find n hs)
unfolding find remove_header
find-remove_header n m [] = ground arith
find-remove_header n m (h ∷ hs) = elim (Bool-cases (same_name m h.name)) [
  | inl e ↦ ground (
    arith,
    find-remove_header n m hs,
    same_name_iff n m,
    same_name_iff n h.name,
    same_name_iff m h.name,
  )
  | inr e ↦ ground (arith, find-remove_header n m hs, same_name_apart n m h.name e)
]

-- `CreateHeader` leaves every value if its name is set, and else sets that name, up to case, and no
-- other.
pub find-create_header :
    (n m v : Bytes) (hs : Headers)
    → find n (create_header m v hs)
      ≡ (if is_set m hs then find n hs else if same_name n m then some v else find n hs)
unfolding create_header
find-create_header n m v hs = elim (Bool-cases (is_set m hs)) [
  | inl e ↦ rw e
  | inr e ↦ rw e (find-set_header n m v hs)
]
