-- ===== src/Modules/Loading/Attached.antt =====
-- Handlers that belong to modules that are loaded, under the changes of events and of the table of
-- modules (src/modules.cpp).
use hottpd.Base.{
  ℕ, zero, suc, ◌≡◌, ◌≤◌, inl, inr, refl, sym, ap, ◌∙◌, false, none, some, List, [], ◌∷◌, ◌==◌,
  if◌then◌else◌, Bytes, eq_bytes, eq_bytes_iff, ==_iff, arith, Bool-cases, All,
}
use hottpd.Modules.{Handlers, attach, detach_all, set_priority, PriorityState}
use hottpd.Modules.Handlers.{occurrences, occurrences-attach, occurrences-detach}
use hottpd.Modules.Priority.{occurrences-set_priority}
use hottpd.Modules.Loading.{
  Loaded, Modules, find_module, at_event, attach_events, set_priorities, erase_module,
  insert_module,
}

pub find-insert :
    (name other : Bytes) (v : Loaded) (modules : Modules)
    → find_module name modules ≡ none
    → find_module other (insert_module name v modules)
      ≡ (if eq_bytes name other then some v else find_module other modules)
unfolding find_module insert_module
find-insert name other v [] h = refl
find-insert name other v ((k, w) ∷ rest) h = ground (
  arith,
  h,
  find-insert name other v rest,
  eq_bytes_iff k other,
  eq_bytes_iff name other,
  eq_bytes_iff k name,
)

pub find-erase :
    (name other : Bytes) (modules : Modules)
    → eq_bytes name other ≡ false
    → find_module other (erase_module name modules) ≡ find_module other modules
unfolding find_module erase_module
find-erase name other [] h = refl
find-erase name other ((k, w) ∷ rest) h = ground (
  arith,
  h,
  find-erase name other rest,
  eq_bytes_iff k other,
  eq_bytes_iff name other,
  eq_bytes_iff k name,
)

-- An object that a module of the table is.
abbrev pub Owned : Modules → ℕ → Type 0
Owned modules x =
    (name : Bytes) × (v : Loaded) × (find_module name modules ≡ some v) × (v.object ≡ x)

-- Each handler stands once, and it is a module that is loaded.
abbrev pub Attached : Modules → Handlers → Type 0
Attached modules handlers =
    (x : ℕ) → (occurrences x handlers ≤ 1) × (1 ≤ occurrences x handlers → Owned modules x)

abbrev pub Sound : Modules → List Handlers → Type 0
Sound modules events = All (Attached modules) events

-- A change of one event's handlers.
pub at_event-Sound :
    (modules : Modules) (f : Handlers → Handlers) (i : ℕ) (events : List Handlers)
    → ((handlers : Handlers) → Attached modules handlers → Attached modules (f handlers))
    → Sound modules events
    → Sound modules (at_event f i events)
unfolding at_event
at_event-Sound modules f i [] h s = tt
at_event-Sound modules f zero (handlers ∷ events) h s = (h handlers s.0, s.1)
at_event-Sound modules f (suc i) (handlers ∷ events) h s =
    (s.0, at_event-Sound modules f i events h s.1)

pub attach-Attached :
    (modules : Modules) (a : ℕ) (handlers : Handlers)
    → Owned modules a
    → Attached modules handlers
    → Attached modules (attach a handlers).1
attach-Attached modules a handlers owned h = λ x.
    let counted = occurrences-attach a x handlers in
    elim (Bool-cases (a == x)) [
      | inl e ↦
          let same : a ≡ x = (==_iff a x).0 e in
          let own : Owned modules x = rw same at owned in
          (ground (arith, counted, h x, same), λ _. own)
      | inr e ↦
          (ground (arith, counted, h x, e), λ there. (h x).1 (ground (arith, counted, e, there)))
    ]

pub attach_events-Sound :
    (modules : Modules) (a : ℕ) (is : List ℕ) (events : List Handlers)
    → Owned modules a
    → Sound modules events
    → Sound modules (attach_events a is events)
unfolding attach_events
attach_events-Sound modules a [] events owned s = s
attach_events-Sound modules a (i ∷ is) events owned s = attach_events-Sound modules a is _ owned (
    at_event-Sound modules (λ handlers. (attach a handlers).1) i events
      (λ handlers h. attach-Attached modules a handlers owned h) s)

pub set_priority-Attached :
    (modules : Modules) (who : ℕ) (s : PriorityState) (handlers : Handlers)
    → Attached modules handlers
    → Attached modules (set_priority who s handlers).1
set_priority-Attached modules who s handlers h = λ x.
    let counted = occurrences-set_priority who x s handlers in
    (rw counted (h x).0, λ there. (h x).1 (rw counted at there))

pub set_priorities-Sound :
    (modules : Modules) (who : ℕ) (wishes : List (ℕ × PriorityState)) (events : List Handlers)
    → Sound modules events
    → Sound modules (set_priorities who wishes events)
unfolding set_priorities
set_priorities-Sound modules who [] events s = s
set_priorities-Sound modules who ((i, p) ∷ wishes) events s =
    set_priorities-Sound modules who wishes _ (
      at_event-Sound modules (λ handlers. (set_priority who p handlers).1) i events
        (λ handlers h. set_priority-Attached modules who p handlers h) s)

-- More modules are loaded, or one fewer that handles nothing.
pub Sound-more :
    (modules more : Modules) (events : List Handlers)
    → ((x : ℕ) → Owned modules x → Owned more x)
    → Sound modules events
    → Sound more events
Sound-more modules more [] f s = tt
Sound-more modules more (handlers ∷ events) f s =
    (λ x. ((s.0 x).0, λ there. f x ((s.0 x).1 there)), Sound-more modules more events f s.1)

pub detach_all-Sound :
    (modules : Modules) (name : Bytes) (v : Loaded) (events : List Handlers)
    → find_module name modules ≡ some v
    → Sound modules events
    → Sound (erase_module name modules) (detach_all v.object events)
unfolding detach_all
detach_all-Sound modules name v [] present s = tt
detach_all-Sound modules name v (handlers ∷ events) present s = (
  λ x.
      let counted = occurrences-detach v.object x handlers in
      (
        ground (arith, counted, s.0 x),
        λ there.
            let (other, w, found, is) : Owned modules x =
              (s.0 x).1 (ground (arith, counted, there)) in
            let apart : (v.object == x) ≡ false = ground (arith, counted, there, (s.0 x).0) in
            let unlike : eq_bytes name other ≡ false = elim (Bool-cases (eq_bytes name other)) [
              | inl e ↦
                  let same : some v ≡ some w =
                    sym present
                    ∙ ap (λ n. find_module n modules) ((eq_bytes_iff name other).0 e)
                    ∙ found in
                  let object : v.object ≡ x =
                    ap (λ o. elim o [ none ↦ 0 | some y ↦ y.object ]) same ∙ is in
                  ground (arith, object, apart)
              | inr e ↦ e
            ] in
            (other, w, find-erase name other modules unlike ∙ found, is),
      ),
  detach_all-Sound modules name v events present s.1,
)
