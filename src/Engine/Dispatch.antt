-- ===== src/Engine/Dispatch.antt =====
-- Which handlers `EPollEngine::DispatchEvents` calls (src/socketengines/socketengine_epoll.cpp).
use hottpd.Base.{
  ℕ, zero, suc, ◌<◌, ◌≡◌, refl, sym, ap, ◌∙◌, Bool, true, ◌||◌, Option, none, some, List, [], ◌∷◌,
  ◌++◌, append-nil, append_assoc, length, All, get_elem?, if◌then◌else◌, Bool-cases, inl, inr,
  arith,
}
use mathlib.Core.Path.{subst}
use hottpd.Engine.{
  Control, ctl_mod, Engine, EventType, event_read, event_write, event_error, EpollEvent, deliver,
  dispatch_event, dispatch_events,
}

-- The handler of a descriptor, if it has one.
unfoldable pub handler_of : List (Option ℕ) → ℕ → Option ℕ
handler_of [] n = none
handler_of (held ∷ ref) zero = held
handler_of (held ∷ ref) (suc n) = handler_of ref n

-- What an entry tells the handler: an error or the end before all else, then that it may write.
abbrev pub kind : EpollEvent → EventType
kind ev = if ev.hup || ev.err then event_error else if ev.out then event_write else event_read

abbrev pub called : Option ℕ → EventType → List (ℕ × EventType)
called none event = []
called (some address) event = (address, event) ∷ []

-- The calls for some entries, in their order.
abbrev pub calls : List (Option ℕ) → List EpollEvent → List (ℕ × EventType)
calls ref [] = []
calls ref (ev ∷ events) = called (handler_of ref ev.event_fd) (kind ev) ++ calls ref events

get_elem?-handler_of :
    (ref : List (Option ℕ)) (n : ℕ) → n < length ref → get_elem? ref n ≡ some (handler_of ref n)
unfolding handler_of
get_elem?-handler_of [] n h = absurd (omega arith)
get_elem?-handler_of (held ∷ ref) zero h = refl
get_elem?-handler_of (held ∷ ref) (suc n) h = get_elem?-handler_of ref n (omega arith)

module _ {World : Type 0} (epoll_ctl : World → Control → ℕ → Bool → Bool × World)
    (handle : ℕ → EventType → Engine World → Engine World) (log : World → List (ℕ × EventType))
    (quiet : (w : World) (op : Control) (n : ℕ) (b : Bool) → log (epoll_ctl w op n b).1 ≡ log w)
    (notes : (address : ℕ) (event : EventType) (e : Engine World)
      → ((handle address event e).ref ≡ e.ref)
        × (log (handle address event e).kernel ≡ log e.kernel ++ (address, event) ∷ [])) where
  -- The engine goes on with its table as it was, and these calls have been made.
  abbrev pub Made : List (ℕ × EventType) → Engine World → Option (Engine World) → Type 0
  Made made e result =
      (e' : Engine World) × (result ≡ some e')
      × (e'.ref ≡ e.ref)
      × (log e'.kernel ≡ log e.kernel ++ made)

  deliver-Made :
      (n : ℕ) (event : EventType) (e : Engine World)
      → n < length e.ref
      → Made (called (handler_of e.ref n) event) e (deliver epoll_ctl handle n event e)
  unfolding deliver
  deliver-Made n event e h =
      rw (deliver, get_elem?-handler_of e.ref n h)
        (elim (handler_of e.ref n)
          as (λ o.
            Made (called o event) e
              (elim o [ none ↦ some e | some address ↦ some (handle address event e) ])) [
                | none ↦ (e, refl, refl, sym (append-nil (log e.kernel)))
                | some address ↦
                    let (same, noted) = notes address event e in
                    (handle address event e, refl, same, noted)
              ])

  dispatch_event-Made :
      (ev : EpollEvent) (e : Engine World)
      → ev.event_fd < length e.ref
      → Made
          (called (handler_of e.ref ev.event_fd) (kind ev))
          e
          (dispatch_event epoll_ctl handle ev e)
  unfolding dispatch_event
  dispatch_event-Made ev e h =
      let (_, w) = epoll_ctl e.kernel ctl_mod ev.event_fd true in
      let tell : (k : EventType)
          → Made (called (handler_of e.ref ev.event_fd) k) e
              (deliver epoll_ctl handle ev.event_fd k e) =
        λ k. deliver-Made ev.event_fd k e h in
      elim (Bool-cases ev.hup) [
        | inl a ↦ rw (dispatch_event, a) (tell event_error)
        | inr a ↦ elim (Bool-cases ev.err) [
          | inl b ↦ rw (dispatch_event, a, b) (tell event_error)
          | inr b ↦ elim (Bool-cases ev.out) [
            | inr c ↦ rw (dispatch_event, a, b, c) (tell event_read)
            | inl c ↦
                let (e', done, same, made) =
                  deliver-Made ev.event_fd event_write (record e { kernel = w }) h in
                rw (dispatch_event, a, b, c)
                  (
                    e',
                    done,
                    same,
                    made
                        ∙ ap (λ l. l ++ called (handler_of e.ref ev.event_fd) event_write)
                            (quiet e.kernel ctl_mod ev.event_fd true),
                  )
          ]
        ]
      ]

  -- Let each handler note that it is called, and leave the table alone, and let epoll_ctl note
  -- nothing. For entries whose descriptors the table has, `DispatchEvents` stays within the table and
  -- leaves it as it is, and calls just this, in the order of the entries: for each whose descriptor has
  -- a handler, that handler, once, with an error where the entry has EPOLLHUP or EPOLLERR, else that it
  -- may write where it has EPOLLOUT, and else that it may read.
  pub dispatch_events-Made :
      (events : List EpollEvent) (e : Engine World)
      → All (λ ev. ev.event_fd < length e.ref) events
      → Made (calls e.ref events) e (dispatch_events epoll_ctl handle events e)
  unfolding dispatch_events
  dispatch_events-Made [] e h = (e, refl, refl, sym (append-nil (log e.kernel)))
  dispatch_events-Made (ev ∷ events) e h =
      let (e', done, same, made) = dispatch_event-Made ev e h.0 in
      let rest : Made (calls e.ref events) e' (dispatch_events epoll_ctl handle events e') =
        subst
          (λ (ref : List (Option ℕ)).
            Made (calls ref events) e' (dispatch_events epoll_ctl handle events e'))
          same
          (dispatch_events-Made events e' (
            subst (λ (ref : List (Option ℕ)). All (λ ev. ev.event_fd < length ref) events)
              (sym same) h.1)) in
      let (last, ends, kept, all) = rest in
      rw (dispatch_events, done)
        (
          last,
          ends,
          kept ∙ same,
          all
              ∙ ap (λ l. l ++ calls e.ref events) made
              ∙ append_assoc (log e.kernel) (called (handler_of e.ref ev.event_fd) (kind ev))
                  (calls e.ref events),
        )
