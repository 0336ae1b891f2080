-- ===== src/Server/Sweep.antt =====
-- How the time-outs of `InspIRCd::Run` (src/inspircd.cpp) end the old connections.
use hottpd.Base.{
  ℕ, ◌+◌, ltb, ◌≡◌, ◌≤◌, ◌<◌, refl, ◌∙◌, Bool, true, false, List, if◌then◌else◌, All, arith,
  Bool-cases, ◌⊎◌, inl, inr,
}
use hottpd.Connection.{Config, Host, Hooks}
use hottpd.Connection.Input.{handle_event}
use hottpd.Connection.Invariant.{Keep}
use hottpd.Server.{Client, Server, Limits, Outside, occurrences, apply, time_out, begin}
use hottpd.Server.Steps.{
  at_time, accept, ready, Dispatch, idle, event, Iteration, turn, Reach, Run, stop, again,
}
use hottpd.Server.Clients.{All-map}
use hottpd.Server.Booking.{Sound, handle_event-Books}
use hottpd.Server.Invariant.{count-Sound, Dispatch-Sound, begin-Sound, Iteration-Sound, Reach-Sound}
use hottpd.Server.Bound.{Dispatch-times, begin-times}
use hottpd.Server.Lifetime.{live_self, time_out-grows, time_out-Each, time_out-finds}
use hottpd.Server.Swept.{
  Swept, Swept-grows, IsSwept, on_client-IsSwept, add-IsSwept, apply_culls-young,
}

module _ (host : Host) (conf : Config) (hooks : Hooks host.World) (limits : Limits)
    (outside : Outside host.World) (keep : Keep hooks) (from : ℕ)
    (pos : 0 < limits.timeout_total_lifetime) where
  abbrev total : ℕ
  total = limits.timeout_total_lifetime

  Dispatch-IsSwept :
      {now : ℕ} {s t : Server host.World}
      → from ≤ now
      → Dispatch host conf hooks limits outside now s t
      → IsSwept from total s
      → IsSwept from total t
  Dispatch-IsSwept later idle h = h
  Dispatch-IsSwept {now} later (event {t = s} steps (accept made a socket back room free)) h =
      add-IsSwept from total outside now made a socket s pos (omega (arith, later, back))
        (Dispatch-IsSwept later steps h)
  Dispatch-IsSwept {now} later (event {t = s} steps (ready a e)) h =
      on_client-IsSwept from total (handle_event host (at_time conf now) hooks e)
        (handle_event-Books host (at_time conf now) hooks keep e) a s
        (Dispatch-IsSwept later steps h)

  module _ (now : ℕ) (later : from ≤ now) where
    time_out-IsSwept :
        (clients : List Client) (s : Server host.World)
        → IsSwept from total s
        → IsSwept from total (time_out limits now clients s)
    time_out-IsSwept clients s h =
        let t : Server host.World = time_out limits now clients s in
        Swept-grows from total s.culls t.culls t.clients
          (λ x. time_out-grows limits now x clients s)
          (time_out-Each limits now (λ x age. (from < age + total) ⊎ (1 ≤ occurrences x s.culls))
            clients s h)

    -- One sweep over all connections.
    sweep-IsSwept :
        (s : Server host.World) → Sound s → IsSwept from total (time_out limits now s.clients s)
    sweep-IsSwept s i =
        let t : Server host.World = time_out limits now s.clients s in
        time_out-Each limits now (λ x age. (from < age + total) ⊎ (1 ≤ occurrences x t.culls))
          s.clients s
          (All-map (λ c. (now < c.age + total) ⊎ (1 ≤ occurrences c.address t.culls))
            (Swept from total t.culls) s.clients
            (λ c k. elim k [ inl young ↦ inl (omega (arith, later)) | inr listed ↦ inr listed ])
            (time_out-finds limits now s.clients s i (live_self s.clients)))

    -- An iteration sweeps, or it counts up to the frequency, and it keeps what is swept.
    begin-IsSwept :
        (changed : Bool) (s : Server host.World)
        → Sound s
        → IsSwept from total s ⊎ (limits.timeout_cull_frequency < s.times + 1)
        → IsSwept from total (begin limits outside now changed s)
    unfolding begin
    begin-IsSwept changed s i h =
        let counted : Bool → Server host.World = λ b.
          if b
          then time_out limits now s.clients (record s { times = 1 })
          else record s { times = s.times + 1 } in
        let k : (b : Bool)
            → ltb limits.timeout_cull_frequency (s.times + 1) ≡ b
            → IsSwept from total (counted b) =
          λ b.
            elim b
              as (λ b.
                ltb limits.timeout_cull_frequency (s.times + 1) ≡ b
                → IsSwept from total (counted b)) [
                  | true ↦ λ e. sweep-IsSwept (record s { times = 1 }) (count-Sound 1 s i)
                  | false ↦ λ e. elim h [ inl swept ↦ swept | inr due ↦ ground (arith, e, due) ]
                ] in
        let full : IsSwept from total (counted (ltb limits.timeout_cull_frequency (s.times + 1))) =
          k (ltb limits.timeout_cull_frequency (s.times + 1)) refl in
        elim changed
          as (λ b. IsSwept from total (
            if b
            then record (counted (ltb limits.timeout_cull_frequency (s.times + 1))) {
              world =
                  outside.background
                    (counted (ltb limits.timeout_cull_frequency (s.times + 1))).world now;
            }
            else counted (ltb limits.timeout_cull_frequency (s.times + 1)))) [
              | true ↦ full
              | false ↦ full
            ]

    Iteration-young :
        {s t : Server host.World}
        → Sound s
        → IsSwept from total s ⊎ (limits.timeout_cull_frequency < s.times + 1)
        → Iteration host conf hooks limits outside now s t
        → All (λ c. from < c.age + total) t.clients
    unfolding apply
    Iteration-young {s} i h (turn changed {t} steps) =
        let k : Sound t =
          Dispatch-Sound host conf hooks limits outside keep steps
            (begin-Sound limits outside now changed s i) in
        apply_culls-young from total outside t.culls t.clients t.world k.distinct
          (Dispatch-IsSwept later steps (begin-IsSwept changed s i h))

  -- Where nothing is swept yet, the iterations are counted.
  Iteration-times :
      {now : ℕ} {s t : Server host.World}
      → (ltb limits.timeout_cull_frequency (s.times + 1)) ≡ false
      → Iteration host conf hooks limits outside now s t
      → t.times ≡ s.times + 1
  unfolding apply
  Iteration-times {now} {s} e (turn changed {t} steps) =
      Dispatch-times host conf hooks limits outside steps
      ∙ begin-times limits outside now changed s e

  Run-Sound :
      {s : Server host.World} {n : ℕ} {t : Server host.World}
      → Sound s
      → Run host conf hooks limits outside from s n t
      → Sound t
  Run-Sound i stop = i
  Run-Sound i (again now later r step) =
      Iteration-Sound host conf hooks limits outside keep step (Run-Sound i r)

  Run-counts :
      {s : Server host.World} {n : ℕ} {t : Server host.World}
      → Sound s
      → Run host conf hooks limits outside from s n t
      → All (λ c. from < c.age + total) t.clients
        ⊎ ((t.times ≡ s.times + n) × ((n ≡ 0) ⊎ (t.times ≤ limits.timeout_cull_frequency)))
  Run-counts i stop = inr (omega arith, inl refl)
  Run-counts i (again {n} {t} {u} now later r step) =
      elim (Bool-cases (ltb limits.timeout_cull_frequency (t.times + 1))) [
        | inl due ↦ inl (Iteration-young now later (Run-Sound i r) (inr (ground (arith, due))) step)
        | inr e ↦ elim (Run-counts i r) [
          | inl young ↦ inl (
              Iteration-young now later (Run-Sound i r)
                (inl (
                  All-map (λ c. from < c.age + total) (Swept from total t.culls) t.clients
                    (λ c k. inl k) young))
                step)
          | inr counted ↦ inr (
            omega (arith, Iteration-times e step, counted.0),
            inr (ground (arith, e, Iteration-times e step)),
          )
        ]
      ]

  -- Let the hooks keep to their own and at most ask for the connection itself to be closed, and let
  -- the clock that gives a new connection its age never be behind the TIME of its iteration. If the
  -- loop of `Run` turns more often than `TimeoutCullFrequency`, all that at a time or later, from a
  -- state that it has reached, then every connection there is has been made, by its age, less than
  -- `TimeoutTotalLifetime`, which is not 0, before that time.
  pub Run-young :
      {n : ℕ} {s t : Server host.World}
      → Reach host conf hooks limits outside s
      → limits.timeout_cull_frequency < n
      → Run host conf hooks limits outside from s n t
      → All (λ c. from < c.age + limits.timeout_total_lifetime) t.clients
  Run-young {n} {s} {t} reached often r =
      elim (Run-counts (Reach-Sound host conf hooks limits outside keep reached) r) [
        | inl young ↦ young
        | inr counted ↦ ground (arith, counted.0, counted.1, often)
      ]
