-- ===== src/Server/Bound.antt =====
-- How many connections there can be, which `ListenSocket::HandleEvent` (src/socket.cpp) bounds, and
-- the counter of `InspIRCd::Run` (src/inspircd.cpp).
use hottpd.Base.{
  ℕ, ◌+◌, ltb, ◌≡◌, ◌≤◌, ◌<◌, refl, ◌∙◌, Bool, true, false, Option, none, some, List, [], ◌∷◌,
  if◌then◌else◌, length, length-append, arith, Bool-cases, inl, inr,
}
use hottpd.Connection.{Config, Host, St, Hooks, Fd, opened, delete}
use hottpd.Connection.Input.{handle_event}
use hottpd.Server.{
  Client, Server, Limits, Outside, find_client, remove, placed, booked, on_client, add, apply_culls,
  apply, expired, time_out, begin, disconnect, is_full,
}
use hottpd.Server.Steps.{at_time, accept, ready, Dispatch, idle, event, turn, Reach, start, iterate}
use hottpd.Server.Clients.{length-store, length-remove}
use hottpd.Server.Invariant.{pushed}

module _ {World : Type 0} where
  -- A method of a connection keeps the number of connections and the counter.
  on_client-counts :
      (f : St World → St World) (a : ℕ) (s : Server World)
      → (length (on_client f a s).clients ≡ length s.clients) × ((on_client f a s).times ≡ s.times)
  unfolding on_client booked
  on_client-counts f a s =
      let after : Option Client → Server World =
        λ o. elim o [ none ↦ s | some c ↦ booked c (f (placed c s)) s ] in
      elim (find_client a s.clients)
        as (λ o. (length (after o).clients ≡ length s.clients) × ((after o).times ≡ s.times)) [
          | none ↦ (refl, refl)
          | some c ↦ (length-store c.address (f (placed c s)).conn s.clients, refl)
        ]

  add-counts :
      (outside : Outside World) (now made a : ℕ) (socket : Fd) (s : Server World)
      → (length (add outside now made a socket s).clients ≡ length s.clients + 1)
        × ((add outside now made a socket s).times ≡ s.times)
  unfolding add
  add-counts outside now made a socket s =
      let t : Server World = pushed now made a socket ((outside.add_fd s.world a socket).1) s in
      let more : length t.clients ≡ length s.clients + 1 =
        length-append s.clients
          (record { address = a; age = made; conn = opened socket now } ∷ []) in
      elim (Bool-cases ((outside.add_fd s.world a socket).0)) [
        | inl e ↦ rw e (more, refl)
        | inr e ↦ rw e ((on_client-counts delete a t).0 ∙ more, (on_client-counts delete a t).1)
      ]

  apply_culls-length :
      (outside : Outside World) (culls : List ℕ) (clients : List Client) (w : World)
      → length ((apply_culls outside culls (clients, w)).0) ≤ length clients
  unfolding apply_culls
  apply_culls-length outside [] clients w = omega arith
  apply_culls-length outside (a ∷ culls) clients w =
      elim (find_client a clients)
        as (λ o.
          length (
            (elim o as (λ _. List Client × World) [
              | none ↦ apply_culls outside culls (clients, w)
              | some c ↦ apply_culls outside culls (remove a clients, disconnect outside w c)
            ]).0)
          ≤ length clients) [
            | none ↦ apply_culls-length outside culls clients w
            | some c ↦ omega (
              arith,
              apply_culls-length outside culls (remove a clients) (disconnect outside w c),
              length-remove a clients,
            )
          ]

  module _ (limits : Limits) where
    time_out-counts :
        (now : ℕ) (clients : List Client) (s : Server World)
        → (length (time_out limits now clients s).clients ≡ length s.clients)
          × ((time_out limits now clients s).times ≡ s.times)
    unfolding time_out
    time_out-counts now [] s = (refl, refl)
    time_out-counts now (c ∷ clients) s =
        elim (expired limits now c)
          as (λ b.
            (length
                (time_out limits now clients
                  (if b then on_client delete c.address s else s)).clients
              ≡ length s.clients)
            × ((time_out limits now clients (if b then on_client delete c.address s else s)).times
                ≡ s.times)) [
                  | true ↦
                      let (l, n) = time_out-counts now clients (on_client delete c.address s) in
                      (
                        l ∙ (on_client-counts delete c.address s).0,
                        n ∙ (on_client-counts delete c.address s).1,
                      )
                  | false ↦ time_out-counts now clients s
                ]

    begin-length :
        (outside : Outside World) (now : ℕ) (changed : Bool) (s : Server World)
        → length (begin limits outside now changed s).clients ≡ length s.clients
    unfolding begin
    begin-length outside now changed s =
        ground (arith, (time_out-counts now s.clients (record s { times = 1 })).0)

    pub begin-times :
        (outside : Outside World) (now : ℕ) (changed : Bool) (s : Server World)
        → ltb limits.timeout_cull_frequency (s.times + 1) ≡ false
        → (begin limits outside now changed s).times ≡ s.times + 1
    unfolding begin
    begin-times outside now changed s e = ground (arith, e)

module _ (host : Host) (conf : Config) (hooks : Hooks host.World) (limits : Limits)
    (outside : Outside host.World) where
  pub Dispatch-times :
      {now : ℕ} {s t : Server host.World}
      → Dispatch host conf hooks limits outside now s t
      → t.times ≡ s.times
  Dispatch-times idle = refl
  Dispatch-times {now} (event {t = t} steps (accept made a socket back room free)) =
      (add-counts outside now made a socket t).1 ∙ Dispatch-times steps
  Dispatch-times {now} (event {t = t} steps (ready a e)) =
      (on_client-counts (handle_event host (at_time conf now) hooks e) a t).1 ∙ Dispatch-times steps

  abbrev pub Bounded : Server host.World → Type 0
  Bounded s = (length s.clients ≤ limits.soft_limit) × (length s.clients < limits.max_clients)

  pub Dispatch-Bounded :
      {now : ℕ} {s t : Server host.World}
      → Dispatch host conf hooks limits outside now s t
      → Bounded s
      → Bounded t
  unfolding is_full
  Dispatch-Bounded idle h = h
  Dispatch-Bounded {now} (event {t = t} steps (accept made a socket back room free)) h =
      ground (arith, room, (add-counts outside now made a socket t).0)
  Dispatch-Bounded {now} (event {t = t} steps (ready a e)) h =
      let k : Bounded t = Dispatch-Bounded steps h in
      ground (arith, k, (on_client-counts (handle_event host (at_time conf now) hooks e) a t).0)

  -- If there may be a connection at all, then no state that `Run` reaches has more connections than
  -- the soft limit, or as many as `MAXCLIENTS`.
  pub Reach-Bounded :
      {s : Server host.World}
      → 0 < limits.max_clients
      → Reach host conf hooks limits outside s
      → Bounded s
  unfolding apply
  Reach-Bounded pos (start caches w) = (omega arith, pos)
  Reach-Bounded pos (iterate {s} now r (turn changed {t} steps)) =
      let i : Bounded s = Reach-Bounded pos r in
      let b : Bounded (begin limits outside now changed s) =
        ground (arith, i, begin-length limits outside now changed s) in
      let k : Bounded t = Dispatch-Bounded steps b in
      omega (arith, k.0, k.1, apply_culls-length outside t.culls t.clients t.world)
