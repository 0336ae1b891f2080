-- ===== src/Modules/Tests.antt =====
-- Runs of `SetPriority`.
use hottpd.Base.{
  ◌≡◌, refl, true, some, none, [], ◌∷◌, ◌+◌, ◌-◌, ◌==◌, if◌then◌else◌, get_elem?, codes, eq_bytes,
}
use hottpd.Modules.Features.{
  Features, find_feature, publish_feature, unpublish_feature, find_feature-publish_feature,
  find_feature-unpublish_feature,
}
use hottpd.Modules.Handlers.{occurrences, occurrences-attach, occurrences-detach}
use hottpd.Modules.Priority.{occurrences-set_priority, set_priority-first, set_priority-after}
use hottpd.Modules.{position, attach, detach, set_priority, prio_after, prio_before, prio_first}

moved_after : set_priority 1 (prio_after (some 3 ∷ [])) (1 ∷ 2 ∷ 3 ∷ []) ≡ (true, 3 ∷ 2 ∷ 1 ∷ [])
unfolding set_priority
moved_after = refl

-- From any position but the first, a module is not moved after another.
not_moved_after :
    set_priority 2 (prio_after (some 3 ∷ [])) (1 ∷ 2 ∷ 3 ∷ []) ≡ (true, 1 ∷ 2 ∷ 3 ∷ [])
unfolding set_priority
not_moved_after = refl

moved_before :
    set_priority 3 (prio_before (some 1 ∷ none ∷ [])) (1 ∷ 2 ∷ 3 ∷ []) ≡ (true, 3 ∷ 2 ∷ 1 ∷ [])
unfolding set_priority
moved_before = refl

attached_once :
    occurrences 7 (attach 7 (1 ∷ 2 ∷ [])).1
    ≡ occurrences 7 (1 ∷ 2 ∷ []) + (if 7 == 7 then 1 - occurrences 7 (1 ∷ 2 ∷ []) else 0)
attached_once = occurrences-attach 7 7 (1 ∷ 2 ∷ [])

detached_one :
    occurrences 2 (detach 2 (1 ∷ 2 ∷ [])).1 ≡ occurrences 2 (1 ∷ 2 ∷ []) - (if 2 == 2 then 1 else 0)
detached_one = occurrences-detach 2 2 (1 ∷ 2 ∷ [])

occurrences-set_priority_example :
    occurrences 2 (set_priority 3 (prio_before (some 1 ∷ [])) (1 ∷ 2 ∷ 3 ∷ [])).1
    ≡ occurrences 2 (1 ∷ 2 ∷ 3 ∷ [])
occurrences-set_priority_example =
    occurrences-set_priority 3 2 (prio_before (some 1 ∷ [])) (1 ∷ 2 ∷ 3 ∷ [])

now_first : get_elem? (set_priority 3 prio_first (1 ∷ 2 ∷ 3 ∷ [])).1 0 ≡ some 3
unfolding position
now_first = set_priority-first 3 (1 ∷ 2 ∷ 3 ∷ []) 2 refl

set_priority-after_example :
    set_priority 2 (prio_after (some 3 ∷ [])) (1 ∷ 2 ∷ 3 ∷ []) ≡ (true, 1 ∷ 2 ∷ 3 ∷ [])
unfolding position
set_priority-after_example = set_priority-after 2 0 (some 3 ∷ []) (1 ∷ 2 ∷ 3 ∷ []) refl

abbrev features : Features
features = (codes "regex", 4) ∷ []

feature_published :
    find_feature (codes "regex") (publish_feature (codes "regex") 9 features).1
    ≡ elim (find_feature (codes "regex") features) [
      | none ↦
          if eq_bytes (codes "regex") (codes "regex")
          then some 9
          else find_feature (codes "regex") features
      | some _ ↦ find_feature (codes "regex") features
    ]
feature_published = find_feature-publish_feature (codes "regex") (codes "regex") 9 features

feature_unpublished :
    find_feature (codes "regex") (unpublish_feature (codes "regex") features).1 ≡ (
      if eq_bytes (codes "regex") (codes "regex")
      then none
      else find_feature (codes "regex") features)
feature_unpublished = find_feature-unpublish_feature (codes "regex") (codes "regex") features
