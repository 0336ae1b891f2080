-- ===== src/Engine/Tests.antt =====
-- A table of three descriptors.
use hottpd.Base.{ℕ, ◌≡◌, refl, Bool, true, false, some, none, List, [], ◌∷◌, ◌++◌, arith}
use hottpd.Engine.{
  Control, Engine, Handler, EventType, event_write, event_error, EpollEvent, add_fd, del_fd,
  get_ref, dispatch_events,
}
use hottpd.Engine.Table.{Inv, Within, Kept, add_fd-Inv, del_fd-Inv}
use hottpd.Engine.Dispatch.{handler_of, calls, dispatch_events-Made}

abbrev ctl : Unit {0} → Control → ℕ → Bool → Bool × Unit {0}
ctl w op n readable = (true, tt)

abbrev one : Engine (Unit {0})
one = record { ref = none ∷ some 40 ∷ none ∷ []; current_set_size = 1; kernel = tt }

one-Inv : Inv 3 one
one-Inv = record { whole = refl; counted = refl }

abbrev eh : Handler
eh = record { address = 50; fd = some 2; readable = true }

abbrev old : Handler
old = record { address = 40; fd = some 1; readable = true }

-- The descriptor 3 passes the test of the range and lies past the end of the table.
past_the_end : get_ref 3 (some 3) one ≡ none
unfolding get_ref
past_the_end = refl

add_fd-Inv_example : Within (Kept ctl 3) (add_fd ctl 3 eh one)
add_fd-Inv_example = add_fd-Inv ctl 3 2 eh one (omega arith) (omega arith) refl one-Inv

del_fd-Inv_example : Within (Kept ctl 3) (del_fd ctl 3 old false one)
del_fd-Inv_example = del_fd-Inv ctl 3 1 40 old false one (omega arith) refl refl one-Inv

-- A world in which epoll_ctl notes nothing, and handlers note that they are called.
abbrev noting : List (ℕ × EventType) → Control → ℕ → Bool → Bool × List (ℕ × EventType)
noting w op n readable = (true, w)

abbrev note : ℕ → EventType → Engine (List (ℕ × EventType)) → Engine (List (ℕ × EventType))
note address event e = record e { kernel = e.kernel ++ (address, event) ∷ [] }

abbrev two : Engine (List (ℕ × EventType))
two = record { ref = some 30 ∷ some 40 ∷ none ∷ []; current_set_size = 2; kernel = [] }

-- The descriptor 2 has no handler any more; 0 has an error and may be written to.
abbrev woken : List EpollEvent
woken =
    record { event_fd = 1; hup = false; err = false; out = true }
    ∷ record { event_fd = 2; hup = true; err = false; out = false }
    ∷ record { event_fd = 0; hup = false; err = true; out = true }
    ∷ []

two_calls : calls two.ref woken ≡ (40, event_write) ∷ (30, event_error) ∷ []
unfolding handler_of
two_calls = refl

dispatch_events-Made_example :
    (e' : Engine (List (ℕ × EventType))) × (dispatch_events noting note woken two ≡ some e')
    × (e'.ref ≡ two.ref)
    × (e'.kernel ≡ calls two.ref woken)
dispatch_events-Made_example =
    dispatch_events-Made noting note (λ w. w) (λ w op n b. refl) (λ address event e. (refl, refl))
      woken two (omega arith, (omega arith, (omega arith, tt)))
