-- ===== src/Modules.antt =====
-- src/modules.cpp: the handlers of an event in `ModuleManager`: `Attach`, `Detach`, `DetachAll` and
-- `SetPriority`. A module is the number of its address; a null pointer in a list of modules is
-- `none`.
pub mod Priority
pub mod Features
pub mod Handlers
pub mod Interfaces
pub mod Loading
pub mod Tests
use hottpd.Base.{
  ℕ, zero, suc, ◌+◌, ◌-◌, Bool, true, false, ◌&&◌, ◌||◌, Option, none, some, List, [], ◌∷◌, ◌++◌,
  ◌==◌, leb, if◌then◌else◌, length, get_elem?, set, is_empty,
}
use mathlib.Core.Bool.{not}
use mathlib.Core.List.{map}
use mathlib.Core.Option

-- `EventHandlers[i]` for one event.
abbrev pub Handlers : Type 0
Handlers = List ℕ

-- `std::find`: the position of the first of its kind.
unfoldable pub position : ℕ → Handlers → Option ℕ
position who [] = none
position who (m ∷ handlers) = if m == who then some 0 else Option.map suc (position who handlers)

unfoldable pub attach : ℕ → Handlers → Bool × Handlers
unfolding position
attach who handlers = elim (position who handlers) [
  | some _ ↦ (false, handlers)
  | none ↦ (true, handlers ++ who ∷ [])
]

-- The vector less what stands at a position.
unfoldable pub erase_at : ℕ → Handlers → Handlers
erase_at i [] = []
erase_at zero (m ∷ handlers) = handlers
erase_at (suc i) (m ∷ handlers) = m ∷ erase_at i handlers

unfoldable pub detach : ℕ → Handlers → Bool × Handlers
unfolding position erase_at
detach who handlers = elim (position who handlers) [
  | none ↦ (false, handlers)
  | some x ↦ (true, erase_at x handlers)
]

-- The vectors of all events.
unfoldable pub detach_all : ℕ → List Handlers → List Handlers
unfolding detach
detach_all who events = map (λ handlers. (detach who handlers).1) events

pub data PriorityState : Type 0 where
  prio_first prio_dontcare prio_last : PriorityState
  prio_after prio_before : List (Option ℕ) → PriorityState

-- `swap` and `swap_pos`
abbrev pub Target : Type 0
Target = Bool × ℕ

-- The inner loops, over the modules named; `m` stands at `x`.
unfoldable pub after_named : ℕ → ℕ → ℕ → List (Option ℕ) → Target → Target
after_named source x m [] target = target
after_named source x m (none ∷ modules) target = after_named source x m modules target
after_named source x m (some n ∷ modules) (swap, swap_pos) =
    after_named source x m modules
      (if m == n && leb swap_pos x && leb source swap_pos then (true, x) else (swap, swap_pos))

unfoldable pub before_named : ℕ → ℕ → ℕ → List (Option ℕ) → Target → Target
before_named source x m [] target = target
before_named source x m (none ∷ modules) target = before_named source x m modules target
before_named source x m (some n ∷ modules) (swap, swap_pos) =
    before_named source x m modules
      (if m == n && leb x swap_pos && leb swap_pos source then (true, x) else (swap, swap_pos))

-- The outer loops, from the position `x` on.
unfoldable pub after_loop : ℕ → List (Option ℕ) → ℕ → Handlers → Target → Target
unfolding after_named
after_loop source modules x [] target = target
after_loop source modules x (m ∷ handlers) target =
    after_loop source modules (x + 1) handlers (after_named source x m modules target)

unfoldable pub before_loop : ℕ → List (Option ℕ) → ℕ → Handlers → Target → Target
unfolding before_named
before_loop source modules x [] target = target
before_loop source modules x (m ∷ handlers) target =
    before_loop source modules (x + 1) handlers (before_named source x m modules target)

unfoldable pub swap_target : PriorityState → ℕ → Handlers → Target
unfolding after_loop before_loop
swap_target prio_dontcare source handlers = (false, 0)
swap_target prio_first source handlers = (true, 0)
swap_target prio_last source handlers = (true, if is_empty handlers then 0 else length handlers - 1)
swap_target (prio_after modules) source handlers = after_loop source modules 0 handlers (false, 0)
swap_target (prio_before modules) source handlers =
    before_loop source modules 0 handlers (false, length handlers - 1)

-- `std::swap` of two elements; both positions are in the vector.
unfoldable pub swap_at : ℕ → ℕ → Handlers → Handlers
swap_at i j handlers = elim (get_elem? handlers i) [
  | none ↦ handlers
  | some a ↦ elim (get_elem? handlers j) [ none ↦ handlers | some b ↦ set (set handlers i b) j a ]
]

-- False if the module does not handle the event.
unfoldable pub set_priority : ℕ → PriorityState → Handlers → Bool × Handlers
unfolding position swap_target swap_at
set_priority who s handlers = elim (position who handlers) [
  | none ↦ (false, handlers)
  | some source ↦
      let (swap, swap_pos) = swap_target s source handlers in
      (
        true,
        if swap && not (swap_pos == source) then swap_at swap_pos source handlers else handlers,
      )
]
