-- ===== src/Modules/Features.antt =====
-- src/modules.cpp: `PublishFeature`, `UnpublishFeature` and `FindFeature`, over a map from names to
-- modules.
use hottpd.Base.{
  ℕ, ◌≡◌, refl, Bool, true, false, Option, none, some, List, [], ◌∷◌, if◌then◌else◌, Bytes,
  eq_bytes, eq_bytes_iff, arith, Option-cases, inl, inr,
}

abbrev pub Features : Type 0
Features = List (Bytes × ℕ)

unfoldable pub find_feature : Bytes → Features → Option ℕ
unfolding eq_bytes
find_feature name [] = none
find_feature name ((k, m) ∷ features) =
    if eq_bytes k name then some m else find_feature name features

unfoldable pub publish_feature : Bytes → ℕ → Features → Bool × Features
unfolding find_feature
publish_feature name m features = elim (find_feature name features) [
  | none ↦ (true, (name, m) ∷ features)
  | some _ ↦ (false, features)
]

remove_feature : Bytes → Features → Features
unfolding eq_bytes
remove_feature name [] = []
remove_feature name ((k, m) ∷ features) =
    let rest = remove_feature name features in if eq_bytes k name then rest else (k, m) ∷ rest

unfoldable pub unpublish_feature : Bytes → Features → Bool × Features
unfolding find_feature remove_feature
unpublish_feature name features = elim (find_feature name features) [
  | none ↦ (false, features)
  | some _ ↦ (true, remove_feature name features)
]

-- After `PublishFeature` a name that was not published has the module, one that was keeps the one
-- it had, and no other name changes.
pub find_feature-publish_feature :
    (name other : Bytes) (m : ℕ) (features : Features)
    → find_feature other (publish_feature name m features).1 ≡ elim (find_feature name features) [
      | none ↦ if eq_bytes name other then some m else find_feature other features
      | some _ ↦ find_feature other features
    ]
unfolding publish_feature find_feature
find_feature-publish_feature name other m features =
    elim (Option-cases (find_feature name features)) [
      | inl absent ↦ rw (publish_feature, absent) refl
      | inr (n, present) ↦ rw (publish_feature, present) refl
    ]

find-remove :
    (name other : Bytes) (features : Features)
    → find_feature other (remove_feature name features)
      ≡ (if eq_bytes name other then none else find_feature other features)
unfolding find_feature remove_feature
find-remove name other [] = ground arith
find-remove name other ((k, m) ∷ features) = ground (
  arith,
  find-remove name other features,
  eq_bytes_iff k name,
  eq_bytes_iff k other,
  eq_bytes_iff name other,
)

-- After `UnpublishFeature` its name has no module, and every other name has the one it had.
pub find_feature-unpublish_feature :
    (name other : Bytes) (features : Features)
    → find_feature other (unpublish_feature name features).1
      ≡ (if eq_bytes name other then none else find_feature other features)
unfolding unpublish_feature
find_feature-unpublish_feature name other features =
    elim (Option-cases (find_feature name features)) [
      | inl absent ↦
          rw (unpublish_feature, absent) (ground (arith, absent, eq_bytes_iff name other))
      | inr (n, present) ↦ rw (unpublish_feature, present) (find-remove name other features)
    ]
