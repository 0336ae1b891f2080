-- ===== src/Modules/Priority.antt =====
-- `SetPriority` (src/modules.cpp) on the handlers of an event.
use mathlib.Core.Bool.{not}
use hottpd.Base.{
  ℕ, zero, suc, ◌+◌, ◌≡◌, ◌≢◌, refl, ◌∙◌, ap, Bool, true, false, ◌&&◌, Option, none, some, List, [],
  ◌∷◌, ◌==◌, if◌then◌else◌, get_elem?, set, ==_ne, arith, Bool-cases, Option-cases, inl, inr,
}
use hottpd.Modules.{
  Handlers, position, PriorityState, prio_first, prio_after, Target, after_named, after_loop,
  swap_target, swap_at, set_priority,
}
use hottpd.Modules.Handlers.{occurrences}

abbrev one_if : Bool → ℕ
one_if b = if b then 1 else 0

occurrences-set :
    (other i a b : ℕ) (handlers : Handlers)
    → get_elem? handlers i ≡ some a
    → occurrences other (set handlers i b) + one_if (a == other)
      ≡ occurrences other handlers + one_if (b == other)
occurrences-set other i a b [] h = ground arith
occurrences-set other zero a b (m ∷ handlers) h = ground arith
occurrences-set other (suc i) a b (m ∷ handlers) h =
    ground (arith, occurrences-set other i a b handlers h)

get_elem?-set :
    (i j b : ℕ) (handlers : Handlers)
    → i ≢ j
    → get_elem? (set handlers i b) j ≡ get_elem? handlers j
get_elem?-set i j b [] n = refl
get_elem?-set zero zero b (m ∷ handlers) n = absurd (n refl)
get_elem?-set zero (suc j) b (m ∷ handlers) n = refl
get_elem?-set (suc i) zero b (m ∷ handlers) n = refl
get_elem?-set (suc i) (suc j) b (m ∷ handlers) n = get_elem?-set i j b handlers (ground arith)

occurrences-swap_at :
    (other i j : ℕ) (handlers : Handlers)
    → i ≢ j
    → occurrences other (swap_at i j handlers) ≡ occurrences other handlers
unfolding swap_at
occurrences-swap_at other i j handlers n = elim (Option-cases (get_elem? handlers i)) [
  | inl absent ↦ rw (swap_at, absent) refl
  | inr (a, at_i) ↦ elim (Option-cases (get_elem? handlers j)) [
    | inl absent ↦ rw (swap_at, at_i, absent) refl
    | inr (b, at_j) ↦
        let moved : get_elem? (set handlers i b) j ≡ some b =
          get_elem?-set i j b handlers n ∙ at_j in
        rw (swap_at, at_i, at_j)
          (omega (
            arith,
            occurrences-set other i a b handlers at_i,
            occurrences-set other j b a (set handlers i b) moved,
          ))
  ]
]

-- Whatever the priority, `SetPriority` keeps the handlers of an event: each module stands in the
-- vector as often as before.
pub occurrences-set_priority :
    (who other : ℕ) (s : PriorityState) (handlers : Handlers)
    → occurrences other (set_priority who s handlers).1 ≡ occurrences other handlers
unfolding set_priority
occurrences-set_priority who other s handlers = elim (Option-cases (position who handlers)) [
  | inl absent ↦ rw (set_priority, absent) refl
  | inr (source, here) ↦
      let target : Target = swap_target s source handlers in
      rw (set_priority, here)
        (elim (Bool-cases (target.0 && not (target.1 == source))) [
          | inl e ↦ rw e (occurrences-swap_at other target.1 source handlers (ground (arith, e)))
          | inr e ↦ rw e refl
        ])
]

get_elem?-position :
    (who x : ℕ) (handlers : Handlers)
    → position who handlers ≡ some x
    → get_elem? handlers x ≡ some who
unfolding position
get_elem?-position who x [] h = ground arith
get_elem?-position who zero (m ∷ handlers) h = elim (Option-cases (position who handlers)) [
  | inl absent ↦ ground (arith, absent)
  | inr (y, here) ↦ ground (arith, here)
]
get_elem?-position who (suc x) (m ∷ handlers) h = elim (Option-cases (position who handlers)) [
  | inl absent ↦ ground (arith, absent)
  | inr (y, here) ↦
      let there : y ≡ x = ground (arith, here) in
      get_elem?-position who x handlers (here ∙ ap some there)
]

swap_at-first :
    (who m x : ℕ) (handlers : Handlers)
    → get_elem? handlers x ≡ some who
    → get_elem? (swap_at 0 (suc x) (m ∷ handlers)) 0 ≡ some who
unfolding swap_at
swap_at-first who m x handlers h = rw (swap_at, h) refl

-- `PRIO_FIRST` puts a module that handles the event before all others.
pub set_priority-first :
    (who : ℕ) (handlers : Handlers) (x : ℕ)
    → position who handlers ≡ some x
    → get_elem? (set_priority who prio_first handlers).1 0 ≡ some who
unfolding set_priority swap_target swap_at
set_priority-first who [] x h = get_elem?-position who x [] h
set_priority-first who (m ∷ handlers) zero h =
    rw (set_priority, h) (get_elem?-position who 0 (m ∷ handlers) h)
set_priority-first who (m ∷ handlers) (suc x) h =
    rw (set_priority, h, ==_ne 0 (suc x) (ground arith))
      (swap_at-first who m x handlers (get_elem?-position who (suc x) (m ∷ handlers) h))

after_named-still :
    (source x m : ℕ) (modules : List (Option ℕ))
    → after_named (suc source) x m modules (false, 0) ≡ (false, 0)
unfolding after_named
after_named-still source x m [] = refl
after_named-still source x m (none ∷ modules) = after_named-still source x m modules
after_named-still source x m (some n ∷ modules) =
    ground (arith, after_named-still source x m modules)

after_loop-still :
    (source x : ℕ) (modules : List (Option ℕ)) (handlers : Handlers)
    → after_loop (suc source) modules x handlers (false, 0) ≡ (false, 0)
unfolding after_loop
after_loop-still source x modules [] = refl
after_loop-still source x modules (m ∷ handlers) =
    rw (after_loop, after_named-still source x m modules)
      (after_loop-still source (x + 1) modules handlers)

-- `PRIO_AFTER` leaves the vector as it is, unless the module is the first in it.
pub set_priority-after :
    (who source : ℕ) (modules : List (Option ℕ)) (handlers : Handlers)
    → position who handlers ≡ some (suc source)
    → set_priority who (prio_after modules) handlers ≡ (true, handlers)
unfolding set_priority swap_target
set_priority-after who source modules handlers h =
    rw (set_priority, h, after_loop-still source 0 modules handlers) refl
