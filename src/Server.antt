-- ===== src/Server.antt =====
-- The connections of the program and its main loop: src/connectionmanager.cpp, src/cull_list.cpp,
-- src/socket.cpp (`ListenSocket::HandleEvent`) and src/inspircd.cpp (`Run`). A connection is told
-- from others by the number of its address. What a connection does to itself is `Connection`; here
-- its entries into the cull list are booked.
pub mod Steps
pub mod Clients
pub mod Booking
pub mod Live
pub mod Invariant
pub mod Lifetime
pub mod Swept
pub mod Sweep
pub mod Bound
pub mod Tests
use hottpd.Base.{
  ℕ, zero, suc, ◌+◌, ◌-◌, ◌==◌, ltb, leb, Bool, true, false, ◌&&◌, ◌||◌, Option, none, some, List,
  [], ◌∷◌, ◌++◌, if◌then◌else◌, length,
}
use hottpd.Files.{Caches}
use hottpd.Connection.{Connection, Config, Host, St, Hooks, Fd, fd, opened, delete}
use hottpd.Connection.Input.{Event, handle_event}

-- A connection in `local_connections`, with the `age` of its base class.
pub record Client : Type 0 where
  pub address : ℕ
  pub age : ℕ
  pub conn : Connection

-- `times` is the counter of `Run`; `starved` is the model's own, as in `Connection`.
pub record Server (World : Type 0) : Type 0 where
  pub clients : List Client
  pub culls : List ℕ
  pub caches : Caches
  pub times : ℕ
  pub starved : Bool
  pub world : World

-- The configuration that `Run` and the listening sockets read, none of it negative.
pub record Limits : Type 0 where
  pub soft_limit : ℕ
  pub max_clients : ℕ
  pub timeout_cull_frequency : ℕ
  pub timeout_total_lifetime : ℕ
  pub timeout_idle_lifetime : ℕ

-- The socket engine, the system and the modules, as they are called from here. The modules called
-- here leave the connections alone. `background` is what `Run` does once a second.
pub record Outside (World : Type 0) : Type 0 where
  pub add_fd : World → ℕ → Fd → Bool × World
  pub del_fd : World → ℕ → Fd → World
  pub on_connection_connect : World → ℕ → World
  pub on_connection_disconnect : World → ℕ → World
  pub close_socket : World → Fd → World
  pub close_file : World → ℕ → World
  pub background : World → ℕ → World

unfoldable pub find_client : ℕ → List Client → Option Client
find_client a [] = none
find_client a (c ∷ clients) = if c.address == a then some c else find_client a clients

-- The object at an address has changed.
unfoldable pub store : ℕ → Connection → List Client → List Client
store a conn [] = []
store a conn (c ∷ clients) =
    if c.address == a then record c { conn = conn } ∷ clients else c ∷ store a conn clients

-- `std::find` and `erase`, by address
unfoldable pub remove : ℕ → List Client → List Client
remove a [] = []
remove a (c ∷ clients) = if c.address == a then clients else c ∷ remove a clients

abbrev pub occurrences : ℕ → List ℕ → ℕ
occurrences a [] = 0
occurrences a (b ∷ culls) = if b == a then suc (occurrences a culls) else occurrences a culls

abbrev pub times_over : ℕ → ℕ → List ℕ
times_over zero a = []
times_over (suc n) a = a ∷ times_over n a

module _ (limits : Limits) where
  unfoldable pub expired : ℕ → Client → Bool
  expired now c =
      leb (c.age + limits.timeout_total_lifetime) now
      || leb (c.conn.last_socket_event + limits.timeout_idle_lifetime) now

module _ {World : Type 0} where
  -- A connection in its surroundings.
  abbrev pub placed : Client → Server World → St World
  placed c s = record {
    conn = c.conn;
    caches = s.caches;
    want_write = false;
    culls = occurrences c.address s.culls;
    starved = s.starved;
    world = s.world;
  }

  -- What it leaves; what it adds to the cull list is its own address.
  unfoldable pub booked : Client → St World → Server World → Server World
  unfolding store
  booked c t s = record s {
    clients = store c.address t.conn s.clients;
    culls = s.culls ++ times_over (t.culls - occurrences c.address s.culls) c.address;
    caches = t.caches;
    starved = t.starved;
    world = t.world;
  }

  -- A method of the connection at an address.
  unfoldable pub on_client : (St World → St World) → ℕ → Server World → Server World
  unfolding find_client booked
  on_client f a s = elim (find_client a s.clients) [
    | none ↦ s
    | some c ↦ booked c (f (placed c s)) s
  ]

  module _ (outside : Outside World) where
    -- `ConnectionManager::Add`, for a new object at an address. `now` is the TIME of the loop; `made` is
    -- what the clock says as the constructor of the base class reads it for the age.
    unfoldable pub add : ℕ → ℕ → ℕ → Fd → Server World → Server World
    unfolding on_client opened delete
    add now made a socket s =
        let pushed = record s {
          clients = s.clients ++ record { address = a; age = made; conn = opened socket now } ∷ [];
        } in
        let (fine, w) = outside.add_fd s.world a socket in
        let asked = record pushed { world = w } in
        let refused = on_client delete a asked in
        if fine then record asked { world = outside.on_connection_connect w a } else refused

    -- `CullList::Apply`: one connection, with its destructor.
    unfoldable pub disconnect : World → Client → World
    disconnect w c =
        let w' = outside.on_connection_disconnect w c.address in
        let deaf = outside.close_socket (outside.del_fd w' c.address c.conn.socket) c.conn.socket in
        elim c.conn.filefd [ none ↦ deaf | some file ↦ outside.close_file deaf file ]

    -- The loop of `Apply`. An address that names no connection would be a dangling pointer.
    unfoldable pub apply_culls : List ℕ → List Client × World → List Client × World
    unfolding find_client remove disconnect
    apply_culls [] state = state
    apply_culls (a ∷ culls) (clients, w) = elim (find_client a clients) [
      | none ↦ apply_culls culls (clients, w)
      | some c ↦ apply_culls culls (remove a clients, disconnect w c)
    ]

    unfoldable pub apply : Server World → Server World
    unfolding apply_culls
    apply s =
        let (clients, w) = apply_culls s.culls (s.clients, s.world) in
        record s { clients = clients; culls = []; world = w }

  module _ (limits : Limits) where
    -- Too many connections for another one.
    unfoldable pub is_full : Server World → Bool
    is_full s =
        ltb limits.soft_limit (length s.clients + 1)
        || leb limits.max_clients (length s.clients + 1)

    -- The loop over `local_connections` in `Run`.
    unfoldable pub time_out : ℕ → List Client → Server World → Server World
    unfolding expired on_client delete
    time_out now [] s = s
    time_out now (c ∷ clients) s =
        time_out now clients (if expired limits now c then on_client delete c.address s else s)

    -- What `Run` does before it dispatches events; `background` is due where the time has changed.
    unfoldable pub begin : Outside World → ℕ → Bool → Server World → Server World
    unfolding time_out
    begin outside now changed s =
        let counted =
          if ltb limits.timeout_cull_frequency (s.times + 1)
          then time_out now s.clients (record s { times = 1 })
          else record s { times = s.times + 1 } in
        if changed then record counted { world = outside.background counted.world now } else counted
