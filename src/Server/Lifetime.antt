-- ===== src/Server/Lifetime.antt =====
-- What becomes of old connections, and how many there can be: the time-outs of `InspIRCd::Run`
-- (src/inspircd.cpp), `CullList::Apply` (src/cull_list.cpp) and the limit that
-- `ListenSocket::HandleEvent` keeps (src/socket.cpp).
use hottpd.Base.{
  ℕ, ◌+◌, ◌==◌, ◌≡◌, ◌≤◌, ◌<◌, refl, ◌∙◌, ap, true, false, Option, none, some, List, [], ◌∷◌,
  if◌then◌else◌, All, arith, Bool-cases, ◌⊎◌, inl, inr, ==_refl,
}
use hottpd.Connection.{Connection, St, delete, add_item}
use hottpd.Server.{
  Client, Server, Limits, find_client, store, occurrences, placed, booked, on_client, expired,
  time_out,
}
use hottpd.Server.Clients.{All-map}
use hottpd.Server.Booking.{
  Booked, is_live, is_live-store, Sound, on_client-grows, delete-Books, entries, named,
  on_client-Sound,
}

-- A property of the addresses and the ages, which nothing changes.
abbrev pub Each : (ℕ → ℕ → Type 0) → List Client → Type 0
Each Q clients = All (λ c. Q c.address c.age) clients

store-Each :
    (Q : ℕ → ℕ → Type 0) (a : ℕ) (conn : Connection) (clients : List Client)
    → Each Q clients
    → Each Q (store a conn clients)
unfolding store
store-Each Q a conn [] h = tt
store-Each Q a conn (c ∷ clients) h = elim (Bool-cases (c.address == a)) [
  | inl e ↦ rw e h
  | inr e ↦ rw e (h.0, store-Each Q a conn clients h.1)
]

pub live_self : (clients : List Client) → Each (λ a _. is_live clients a ≡ true) clients
unfolding find_client
live_self [] = tt
live_self (c ∷ clients) = (
  ground (arith, ==_refl c.address),
  All-map (λ d. is_live clients d.address ≡ true) (λ d. is_live (c ∷ clients) d.address ≡ true)
      clients (λ d h. ground (arith, h)) (live_self clients),
)

live_find :
    (clients : List Client) (a : ℕ)
    → is_live clients a ≡ true
    → (P : Type 0) → ((c : Client) → find_client a clients ≡ some c → P)
    → P
live_find clients a h P f =
    elim (find_client a clients) as (λ o. find_client a clients ≡ o → P) [
      | none ↦ λ e.
          let dead : is_live clients a ≡ false = rw (is_live, e) refl in ground (arith, dead, h)
      | some c ↦ λ e. f c e
    ]
      refl

young :
    (limits : Limits) (now : ℕ) (c : Client)
    → expired limits now c ≡ false
    → now < c.age + limits.timeout_total_lifetime
unfolding expired
young limits now c e = ground (arith, e)

module _ {World : Type 0} where
  pub on_client-Each :
      (Q : ℕ → ℕ → Type 0) (f : St World → St World) (a : ℕ) (s : Server World)
      → Each Q s.clients
      → Each Q (on_client f a s).clients
  unfolding on_client booked
  on_client-Each Q f a s h =
      let after : Option Client → Server World =
        λ o. elim o [ none ↦ s | some c ↦ booked c (f (placed c s)) s ] in
      elim (find_client a s.clients) as (λ o. Each Q (after o).clients) [
        | none ↦ h
        | some c ↦ store-Each Q c.address (f (placed c s)).conn s.clients h
      ]

  on_client-is_live :
      (f : St World → St World) (a x : ℕ) (s : Server World)
      → is_live (on_client f a s).clients x ≡ is_live s.clients x
  unfolding on_client booked
  on_client-is_live f a x s =
      let after : Option Client → Server World =
        λ o. elim o [ none ↦ s | some c ↦ booked c (f (placed c s)) s ] in
      elim (find_client a s.clients) as (λ o. is_live (after o).clients x ≡ is_live s.clients x) [
        | none ↦ refl
        | some c ↦ is_live-store c.address x (f (placed c s)).conn s.clients
      ]

  -- A connection that is deleted is in the cull list.
  deleted_once :
      (a : ℕ) (s : Server World)
      → Sound s
      → is_live s.clients a ≡ true
      → 1 ≤ occurrences a (on_client delete a s).culls
  unfolding on_client booked delete add_item
  deleted_once a s i l =
      live_find s.clients a l (1 ≤ occurrences a (on_client delete a s).culls) (λ c e.
        let k : Booked s.culls c × (c.address ≡ a) = named delete delete-Books a s i c e in
        let t : Server World = booked c (delete (placed c s)) s in
        let same : occurrences c.address t.culls ≡ occurrences a t.culls =
          ap (λ x. occurrences x t.culls) k.1 in
        let after : 1 ≤ occurrences c.address t.culls =
          rw (entries delete delete-Books a s i c e c.address)
            (ground (arith, ==_refl c.address, k.0)) in
        rw (on_client, e) (omega (arith, same, after)))

  module _ (limits : Limits) (now : ℕ) where
    pub time_out-grows :
        (x : ℕ) (clients : List Client) (s : Server World)
        → occurrences x s.culls ≤ occurrences x (time_out limits now clients s).culls
    unfolding time_out
    time_out-grows x [] s = omega arith
    time_out-grows x (c ∷ clients) s =
        elim (expired limits now c)
          as (λ b.
            occurrences x s.culls
            ≤ occurrences x
                (time_out limits now clients
                  (if b then on_client delete c.address s else s)).culls) [
                    | true ↦ omega (
                      arith,
                      on_client-grows delete delete-Books c.address x s,
                      time_out-grows x clients (on_client delete c.address s),
                    )
                    | false ↦ time_out-grows x clients s
                  ]

    pub time_out-Each :
        (Q : ℕ → ℕ → Type 0) (clients : List Client) (s : Server World)
        → Each Q s.clients
        → Each Q (time_out limits now clients s).clients
    unfolding time_out
    time_out-Each Q [] s h = h
    time_out-Each Q (c ∷ clients) s h =
        elim (expired limits now c)
          as (λ b.
            Each Q
              (time_out limits now clients
                (if b then on_client delete c.address s else s)).clients) [
                  | true ↦
                      time_out-Each Q clients (on_client delete c.address s)
                        (on_client-Each Q delete c.address s h)
                  | false ↦ time_out-Each Q clients s h
                ]

    -- Each connection that is listed is in the cull list afterwards, or it was not old.
    pub time_out-finds :
        (clients : List Client) (s : Server World)
        → Sound s
        → Each (λ a _. is_live s.clients a ≡ true) clients
        → Each
            (λ a age.
              (now < age + limits.timeout_total_lifetime)
              ⊎ (1 ≤ occurrences a (time_out limits now clients s).culls))
            clients
    unfolding time_out
    time_out-finds [] s i h = tt
    time_out-finds (c ∷ clients) s i h =
        let Found : Server World → Client → Type 0 = λ t d.
          (now < d.age + limits.timeout_total_lifetime)
          ⊎ (1 ≤ occurrences d.address (time_out limits now clients t).culls) in
        elim (expired limits now c)
            as (λ b.
              expired limits now c ≡ b
              → All (Found (if b then on_client delete c.address s else s)) (c ∷ clients)) [
                | true ↦ λ e.
                    let t : Server World = on_client delete c.address s in
                    let once : 1 ≤ occurrences c.address (time_out limits now clients t).culls =
                      omega (
                        arith,
                        deleted_once c.address s i h.0,
                        time_out-grows c.address clients t,
                      ) in
                    (
                      inr once,
                      time_out-finds clients t (on_client-Sound delete delete-Books c.address s i) (
                          All-map (λ d. is_live s.clients d.address ≡ true)
                            (λ d. is_live t.clients d.address ≡ true) clients
                            (λ d l. on_client-is_live delete c.address d.address s ∙ l) h.1),
                    )
                | false ↦ λ e. (inl (young limits now c e), time_out-finds clients s i h.1)
              ]
          refl
