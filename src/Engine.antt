-- ===== src/Engine.antt =====
-- src/socketengines/socketengine_epoll.cpp and src/socketengine.cpp: the table of handlers by
-- descriptor. `EventHandler` objects are the numbers of their addresses; `MAX_DESCRIPTORS` is an
-- argument; `epoll_ctl` is a parameter. A result of `none` is an access past the end of `ref`.
pub mod Table
pub mod Dispatch
pub mod Tests
use hottpd.Base.{
  ℕ, ◌+◌, ◌-◌, ◌%◌, ◌^◌, Bool, true, false, ◌&&◌, Option, none, some, List, [], ◌∷◌, leb, ltb,
  if◌then◌else◌, get_elem?, set,
}
use mathlib.Core.Bool.{not}

-- A descriptor that is not negative is `some`.
pub data Control : Type 0 where
  ctl_add ctl_mod ctl_del : Control

-- `CurrentSetSize` is an int: from 2^31 on, the number of its bits stands for a negative one.
pub record Engine (World : Type 0) : Type 0 where
  pub ref : List (Option ℕ)
  pub current_set_size : ℕ
  pub kernel : World

pub record Handler : Type 0 where
  pub address : ℕ
  pub fd : Option ℕ
  pub readable : Bool

-- `GetRemainingFds() <= 1`
abbrev pub is_full : ℕ → ℕ → Bool
is_full max size = ltb size (2 ^ 31) && leb max (size + 1)

pub data EventType : Type 0 where
  event_read event_write event_error : EventType

-- One entry of `events`, by the flags that are looked at.
pub record EpollEvent : Type 0 where
  pub event_fd : ℕ
  pub hup : Bool
  pub err : Bool
  pub out : Bool

module _ {World : Type 0} where
  -- `SocketEngine::GetRef`; an inner `none` is a null pointer.
  unfoldable pub get_ref : ℕ → Option ℕ → Engine World → Option (Option ℕ)
  get_ref max none e = some none
  get_ref max (some n) e = if ltb max n then some none else get_elem? e.ref n

  -- `SocketEngine::HasFd`
  unfoldable pub has_fd : ℕ → Option ℕ → Engine World → Option Bool
  unfolding get_ref
  has_fd max fd e = elim (get_ref max fd e) [
    | none ↦ none
    | some none ↦ some false
    | some (some _) ↦ some true
  ]

  module _ (epoll_ctl : World → Control → ℕ → Bool → Bool × World) where
    unfoldable pub register : Handler → ℕ → Engine World → Bool × Engine World
    register eh n e =
        let (fine, w) = epoll_ctl e.kernel ctl_add n eh.readable in
        (
          fine,
          if fine
              then record e {
                ref = set e.ref n (some eh.address);
                current_set_size = (e.current_set_size + 1) % 2 ^ 32;
                kernel = w;
              }
              else record e { kernel = w },
        )

    unfoldable pub add_fd : ℕ → Handler → Engine World → Option (Bool × Engine World)
    unfolding register
    add_fd max eh e = elim eh.fd [
      | none ↦ some (false, e)
      | some n ↦
          if ltb max n
          then some (false, e)
          else if is_full max e.current_set_size
          then some (false, e)
          else elim (get_elem? e.ref n) [
            | none ↦ none
            | some (some _) ↦ some (false, e)
            | some none ↦ some (register eh n e)
          ]
    ]

    unfoldable pub unregister : ℕ → World → Engine World → Option (Bool × Engine World)
    unregister n w e = elim (get_elem? e.ref n) [
      | none ↦ none
      | some _ ↦ some (
        true,
        record e {
          ref = set e.ref n none;
          current_set_size = (e.current_set_size + (2 ^ 32 - 1)) % 2 ^ 32;
          kernel = w;
        },
      )
    ]

    unfoldable pub del_fd : ℕ → Handler → Bool → Engine World → Option (Bool × Engine World)
    unfolding unregister
    del_fd max eh force e = elim eh.fd [
      | none ↦ some (false, e)
      | some n ↦
          let (fine, w) = epoll_ctl e.kernel ctl_del n eh.readable in
          let removed = unregister n w e in
          if ltb max n
          then some (false, e)
          else if not fine && not force
          then some (false, record e { kernel = w })
          else removed
    ]

    -- The body of the loop in `DispatchEvents`; `handle` is `HandleEvent` of the object, which may
    -- change the table.
    module _ (handle : ℕ → EventType → Engine World → Engine World) where
      unfoldable pub deliver : ℕ → EventType → Engine World → Option (Engine World)
      deliver n event e = elim (get_elem? e.ref n) [
        | none ↦ none
        | some none ↦ some e
        | some (some address) ↦ some (handle address event e)
      ]

      unfoldable pub dispatch_event : EpollEvent → Engine World → Option (Engine World)
      unfolding deliver
      dispatch_event ev e =
          let (_, w) = epoll_ctl e.kernel ctl_mod ev.event_fd true in
          if ev.hup
          then deliver ev.event_fd event_error e
          else if ev.err
          then deliver ev.event_fd event_error e
          else if ev.out
          then deliver ev.event_fd event_write (record e { kernel = w })
          else deliver ev.event_fd event_read e

      unfoldable pub dispatch_events : List EpollEvent → Engine World → Option (Engine World)
      unfolding dispatch_event
      dispatch_events [] e = some e
      dispatch_events (ev ∷ events) e = elim (dispatch_event ev e) [
        | none ↦ none
        | some e' ↦ dispatch_events events e'
      ]
