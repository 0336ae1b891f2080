-- ===== src/Server/Invariant.antt =====
-- The connections and the cull list through every iteration of `InspIRCd::Run`: src/inspircd.cpp,
-- src/socket.cpp, src/connectionmanager.cpp, src/cull_list.cpp.
use hottpd.Base.{
  ℕ, suc, ◌+◌, ltb, ◌≡◌, refl, sym, ◌∙◌, ap, Bool, true, false, Option, none, some, List, [], ◌∷◌,
  ◌++◌, if◌then◌else◌, All, arith, Bool-cases, inl, inr, ==_refl,
}
use hottpd.Connection.{Config, Host, Hooks, Fd, opened, delete}
use hottpd.Connection.Input.{handle_event}
use hottpd.Connection.Invariant.{Keep}
use hottpd.Server.{
  Client, Server, Limits, Outside, find_client, remove, occurrences, on_client, add, apply_culls,
  apply, expired, time_out, begin, disconnect,
}
use hottpd.Server.Steps.{
  at_time, EventStep, accept, ready, Dispatch, idle, event, Iteration, turn, Reach, start, iterate,
}
use hottpd.Server.Clients.{
  Distinct, remove-Distinct, concat-Distinct, All-concat, All-map, All-remove_others, All-find,
}
use hottpd.Server.Booking.{
  Booked, is_live, Sound, delete-Books, handle_event-Books, on_client-Sound,
}
use hottpd.Server.Live.{is_live-concat, occurrences-free, All-is_live}

module _ {World : Type 0} where
  abbrev pub pushed : ℕ → ℕ → ℕ → Fd → World → Server World → Server World
  pushed now made a socket w s = record s {
    clients = s.clients ++ record { address = a; age = made; conn = opened socket now } ∷ [];
    world = w;
  }

  pushed-Sound :
      (now made a : ℕ) (socket : Fd) (w : World) (s : Server World)
      → find_client a s.clients ≡ none
      → Sound s
      → Sound (pushed now made a socket w s)
  unfolding opened
  pushed-Sound now made a socket w s n i =
      let c : Client = record { address = a; age = made; conn = opened socket now } in
      record {
        fed = i.fed;
        distinct = concat-Distinct s.clients c n i.distinct;
        booked =
            All-concat (Booked s.culls) s.clients c i.booked
              (occurrences-free s.clients a s.culls n i.live);
        live =
            All-map (λ x. is_live s.clients x ≡ true) (λ x. is_live (s.clients ++ c ∷ []) x ≡ true)
              s.culls (λ x l. is_live-concat x s.clients c l) i.live;
      }

  -- A change of the world alone.
  pub world-Sound : (w : World) (s : Server World) → Sound s → Sound (record s { world = w })
  world-Sound w s i = record {
    fed = i.fed;
    distinct = i.distinct;
    booked = i.booked;
    live = i.live;
  }

  pub add-Sound :
      (outside : Outside World) (now made a : ℕ) (socket : Fd) (s : Server World)
      → find_client a s.clients ≡ none
      → Sound s
      → Sound (add outside now made a socket s)
  unfolding add
  add-Sound outside now made a socket s n i =
      let w : World = (outside.add_fd s.world a socket).1 in
      let t : Server World = pushed now made a socket w s in
      let k : Sound t = pushed-Sound now made a socket w s n i in
      elim (Bool-cases ((outside.add_fd s.world a socket).0)) [
        | inl e ↦ rw e (world-Sound (outside.on_connection_connect w a) t k)
        | inr e ↦ rw e (on_client-Sound delete delete-Books a t k)
      ]

  pub time_out-Sound :
      (limits : Limits) (now : ℕ) (clients : List Client) (s : Server World)
      → Sound s
      → Sound (time_out limits now clients s)
  unfolding time_out
  time_out-Sound limits now [] s i = i
  time_out-Sound limits now (c ∷ clients) s i = elim (Bool-cases (expired limits now c)) [
    | inl e ↦ rw e (
        time_out-Sound limits now clients (on_client delete c.address s)
          (on_client-Sound delete delete-Books c.address s i))
    | inr e ↦ rw e (time_out-Sound limits now clients s i)
  ]

  pub count-Sound : (n : ℕ) (s : Server World) → Sound s → Sound (record s { times = n })
  count-Sound n s i = record {
    fed = i.fed;
    distinct = i.distinct;
    booked = i.booked;
    live = i.live;
  }

  pub begin-Sound :
      (limits : Limits) (outside : Outside World) (now : ℕ) (changed : Bool) (s : Server World)
      → Sound s
      → Sound (begin limits outside now changed s)
  unfolding begin
  begin-Sound limits outside now changed s i =
      let counted : Server World =
        if ltb limits.timeout_cull_frequency (s.times + 1)
        then time_out limits now s.clients (record s { times = 1 })
        else record s { times = s.times + 1 } in
      let k : Sound counted = elim (Bool-cases (ltb limits.timeout_cull_frequency (s.times + 1))) [
        | inl e ↦
            rw e (time_out-Sound limits now s.clients (record s { times = 1 }) (count-Sound 1 s i))
        | inr e ↦ rw e (count-Sound (s.times + 1) s i)
      ] in
      elim (Bool-cases changed) [
        | inl e ↦ rw e (world-Sound (outside.background counted.world now) counted k)
        | inr e ↦ rw e k
      ]

  -- The connections that `Apply` leaves have no entries, and so they are not quitting.
  pub apply_culls-Booked :
      (outside : Outside World) (culls : List ℕ) (clients : List Client) (w : World)
      → Distinct clients
      → All (Booked culls) clients
      → All (λ x. is_live clients x ≡ true) culls
      → Distinct ((apply_culls outside culls (clients, w)).0)
        × All (Booked []) ((apply_culls outside culls (clients, w)).0)
  unfolding apply_culls
  apply_culls-Booked outside [] clients w d b l = (d, b)
  apply_culls-Booked outside (a ∷ culls) clients w d b l =
      let after : Option Client → List Client × World = λ o. elim o [
        | none ↦ apply_culls outside culls (clients, w)
        | some c ↦ apply_culls outside culls (remove a clients, disconnect outside w c)
      ] in
      elim (find_client a clients)
          as (λ o.
            find_client a clients ≡ o → Distinct ((after o).0) × All (Booked []) ((after o).0)) [
              | none ↦ λ e.
                  let dead : is_live clients a ≡ false = rw (is_live, e) refl in
                  ground (arith, dead, l.0)
              | some c ↦ λ e.
                  let named : Booked (a ∷ culls) c × (c.address ≡ a) =
                    All-find (Booked (a ∷ culls)) a clients b e in
                  let once : suc (occurrences a culls) ≡ (if c.conn.quitting then 1 else 0) =
                    ap (λ x. if x then suc (occurrences a culls) else occurrences a culls)
                      (sym (==_refl a))
                    ∙ ap (λ x. occurrences x (a ∷ culls)) (sym named.1)
                    ∙ named.0 in
                  let gone : occurrences a culls ≡ 0 = ground (arith, once) in
                  apply_culls-Booked outside culls (remove a clients) (disconnect outside w c)
                    (remove-Distinct a clients d)
                    (All-remove_others (Booked (a ∷ culls)) (Booked culls) a clients d
                      (λ x n h. ground (arith, n, h)) b)
                    (All-is_live a clients culls gone l.1)
            ]
        refl

  pub apply-Sound : (outside : Outside World) (s : Server World) → Sound s → Sound (apply outside s)
  unfolding apply
  apply-Sound outside s i =
      let (d, b) =
        apply_culls-Booked outside s.culls s.clients s.world i.distinct i.booked i.live in
      record { fed = i.fed; distinct = d; booked = b; live = tt }

  -- Nothing is left to cull.
  pub record IsSettled (s : Server World) : Type 0 where
    pub empty : s.culls ≡ []
    pub distinct : Distinct s.clients
    pub lasting : All (λ c. c.conn.quitting ≡ false) s.clients

  apply-IsSettled :
      (outside : Outside World) (s : Server World) → Sound s → IsSettled (apply outside s)
  unfolding apply
  apply-IsSettled outside s i =
      let (d, b) =
        apply_culls-Booked outside s.culls s.clients s.world i.distinct i.booked i.live in
      record {
        empty = refl;
        distinct = d;
        lasting =
            All-map (Booked []) (λ c. c.conn.quitting ≡ false)
              ((apply_culls outside s.culls (s.clients, s.world)).0)
              (λ c h. elim (Bool-cases c.conn.quitting) [
                | inl e ↦ ground (arith, rw e at h)
                | inr e ↦ e
              ])
              b;
      }

module _ (host : Host) (conf : Config) (hooks : Hooks host.World) (limits : Limits)
    (outside : Outside host.World) (keep : Keep hooks) where
  event-Sound :
      {now : ℕ} {s t : Server host.World}
      → EventStep host conf hooks limits outside now s t
      → Sound s
      → Sound t
  event-Sound {now} {s} (accept made a socket back room free) i =
      add-Sound outside now made a socket s free i
  event-Sound {now} {s} (ready a e) i =
      on_client-Sound (handle_event host (at_time conf now) hooks e)
        (handle_event-Books host (at_time conf now) hooks keep e) a s i

  pub Dispatch-Sound :
      {now : ℕ} {s t : Server host.World}
      → Dispatch host conf hooks limits outside now s t
      → Sound s
      → Sound t
  Dispatch-Sound idle i = i
  Dispatch-Sound (event steps step) i = event-Sound step (Dispatch-Sound steps i)

  pub Iteration-Sound :
      {now : ℕ} {s t : Server host.World}
      → Iteration host conf hooks limits outside now s t
      → Sound s
      → Sound t
  Iteration-Sound {now} {s} (turn changed {t} steps) i =
      apply-Sound outside t (Dispatch-Sound steps (begin-Sound limits outside now changed s i))

  pub Reach-Sound : {s : Server host.World} → Reach host conf hooks limits outside s → Sound s
  Reach-Sound (start caches w) = record { fed = refl; distinct = tt; booked = tt; live = tt }
  Reach-Sound (iterate now r step) = Iteration-Sound step (Reach-Sound r)

  -- Whatever connections are accepted, whatever events they get, whichever of them time out and
  -- whenever: if the hooks keep to their own and at most ask for the connection itself to be closed,
  -- then between two iterations of `Run` the cull list is empty, no two connections have the same
  -- address, and none of them is quitting.
  pub Reach-IsSettled :
      {s : Server host.World} → Reach host conf hooks limits outside s → IsSettled s
  Reach-IsSettled (start caches w) = record { empty = refl; distinct = tt; lasting = tt }
  Reach-IsSettled (iterate now r (turn changed {t} steps)) =
      apply-IsSettled outside t
        (Dispatch-Sound steps (begin-Sound limits outside now changed _ (Reach-Sound r)))

  -- Let the hooks keep to their own and at most ask for the connection itself to be closed. In an
  -- iteration of `Run` from a state that it reaches, after any number of the events that are
  -- dispatched, the cull list holds the addresses of just the connections that are quitting, each
  -- once, so that `Apply` does not meet a connection that has been deleted; and the model's loops
  -- have not run out of fuel.
  pub dispatched-Sound :
      {s t : Server host.World} (now : ℕ) (changed : Bool)
      → Reach host conf hooks limits outside s
      → Dispatch host conf hooks limits outside now (begin limits outside now changed s) t
      → Sound t
  dispatched-Sound {s} now changed r steps =
      Dispatch-Sound steps (begin-Sound limits outside now changed s (Reach-Sound r))
