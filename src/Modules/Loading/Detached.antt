-- ===== src/Modules/Loading/Detached.antt =====
-- Handlers that are attached and detached again (src/modules.cpp: `Attach`, `DetachAll`).
use hottpd.Base.{
  ℕ, zero, suc, ◌≡◌, inl, inr, refl, sym, ap, ◌∙◌, none, some, List, [], ◌∷◌, ◌++◌, length, ==_refl,
  arith, Option-cases, All,
}
use hottpd.Modules.{Handlers, position, erase_at, attach, detach, detach_all}
use hottpd.Modules.Loading.{at_event, attach_events}

pub position-append :
    (who : ℕ) (handlers : Handlers)
    → position who handlers ≡ none
    → position who (handlers ++ who ∷ []) ≡ some (length handlers)
unfolding position
position-append who [] h = ground (arith, ==_refl who)
position-append who (m ∷ handlers) h = elim (Option-cases (position who handlers)) [
  | inl absent ↦ ground (arith, position-append who handlers absent, h)
  | inr (x, here) ↦ ground (arith, here, h)
]

pub erase_at-append :
    (who : ℕ) (handlers : Handlers) → erase_at (length handlers) (handlers ++ who ∷ []) ≡ handlers
unfolding erase_at
erase_at-append who [] = refl
erase_at-append who (m ∷ handlers) = ap (λ x. m ∷ x) (erase_at-append who handlers)

pub detach-append :
    (who : ℕ) (handlers : Handlers)
    → position who handlers ≡ none
    → (detach who (handlers ++ who ∷ [])).1 ≡ handlers
unfolding detach
detach-append who handlers h =
    rw (detach, position-append who handlers h) (erase_at-append who handlers)

pub detach-absent :
    (who : ℕ) (handlers : Handlers)
    → position who handlers ≡ none
    → (detach who handlers).1 ≡ handlers
unfolding detach
detach-absent who handlers h = rw (detach, h) refl

-- Attaching a module makes no difference to what is left when it is detached.
pub detach-attach :
    (who : ℕ) (handlers : Handlers)
    → (detach who (attach who handlers).1).1 ≡ (detach who handlers).1
unfolding attach
detach-attach who handlers = elim (Option-cases (position who handlers)) [
  | inl absent ↦
      rw (attach, absent)
        (detach-append who handlers absent ∙ sym (detach-absent who handlers absent))
  | inr (x, here) ↦ rw (attach, here) refl
]

pub detach_all-at_event :
    (who i : ℕ) (events : List Handlers)
    → detach_all who (at_event (λ handlers. (attach who handlers).1) i events)
      ≡ detach_all who events
unfolding detach_all at_event
detach_all-at_event who i [] = refl
detach_all-at_event who zero (handlers ∷ events) =
    ap (λ x. x ∷ detach_all who events) (detach-attach who handlers)
detach_all-at_event who (suc i) (handlers ∷ events) =
    ap (λ x. (detach who handlers).1 ∷ x) (detach_all-at_event who i events)

pub detach_all-attach_events :
    (who : ℕ) (is : List ℕ) (events : List Handlers)
    → detach_all who (attach_events who is events) ≡ detach_all who events
unfolding attach_events
detach_all-attach_events who [] events = refl
detach_all-attach_events who (i ∷ is) events =
    detach_all-attach_events who is (at_event (λ handlers. (attach who handlers).1) i events)
    ∙ detach_all-at_event who i events

-- No event has the module among its handlers.
abbrev pub Absent : ℕ → List Handlers → Type 0
Absent who events = All (λ handlers. position who handlers ≡ none) events

pub detach_all-Absent :
    (who : ℕ) (events : List Handlers) → Absent who events → detach_all who events ≡ events
unfolding detach_all
detach_all-Absent who [] h = refl
detach_all-Absent who (handlers ∷ events) h =
    ap (λ x. x ∷ detach_all who events) (detach-absent who handlers h.0)
    ∙ ap (λ x. handlers ∷ x) (detach_all-Absent who events h.1)
