-- ===== src/Server/Steps.antt =====
-- What may happen to the connections, in any order: src/socket.cpp (`ListenSocket::HandleEvent`),
-- src/connections.cpp (`HandleEvent`), and the iterations of `InspIRCd::Run` (src/inspircd.cpp).
use hottpd.Base.{ℕ, zero, suc, ◌≡◌, ◌≤◌, Bool, false, none, []}
use hottpd.Connection.{Config, Host, Hooks, Fd}
use hottpd.Connection.Input.{Event, handle_event}
use hottpd.Files.{Caches}
use hottpd.Server.{Server, Limits, Outside, find_client, on_client, add, apply, is_full, begin}

-- The configuration at a time.
abbrev pub at_time : Config → ℕ → Config
at_time conf now = record conf { stat_config = record (conf.stat_config) { now = now } }

module _ (host : Host) (conf : Config) (hooks : Hooks host.World) (limits : Limits)
    (outside : Outside host.World) where
  abbrev pub Servers : Type 0
  Servers = Server host.World

  -- An event that the socket engine dispatches: a connection that is accepted, at an address that
  -- no other has, while there is room; or an event of a connection. The clock that the constructor of
  -- a connection reads has not gone back behind the TIME of the loop.
  pub data EventStep (now : ℕ) (s : Servers) : Servers → Type 0 where
    accept :
        (made a : ℕ) (socket : Fd)
        → now ≤ made
        → is_full limits s ≡ false
        → find_client a s.clients ≡ none
        → EventStep now s (add outside now made a socket s)
    ready :
        (a : ℕ) (event : Event)
        → EventStep now s (on_client (handle_event host (at_time conf now) hooks event) a s)

  pub data Dispatch (now : ℕ) (s : Servers) : Servers → Type 0 where
    idle : Dispatch now s s
    event : {t u : Servers} → Dispatch now s t → EventStep now t u → Dispatch now s u

  -- One iteration of `Run`.
  pub data Iteration (now : ℕ) (s : Servers) : Servers → Type 0 where
    turn :
        (changed : Bool) {t : Servers}
        → Dispatch now (begin limits outside now changed s) t
        → Iteration now s (apply outside t)

  abbrev pub started : Caches → host.World → Servers
  started caches w = record {
    clients = [];
    culls = [];
    caches = caches;
    times = 1;
    starved = false;
    world = w;
  }

  pub data Reach : Servers → Type 0 where
    start : (caches : Caches) (w : host.World) → Reach (started caches w)
    iterate : {s t : Servers} (now : ℕ) → Reach s → Iteration now s t → Reach t

  -- A number of iterations, none of them before a time.
  pub data Run (from : ℕ) (s : Servers) : ℕ → Servers → Type 0 where
    stop : Run from s zero s
    again :
        {n : ℕ} {t u : Servers} (now : ℕ)
        → from ≤ now
        → Run from s n t
        → Iteration now t u
        → Run from s (suc n) u
