-- ===== src/Server/Swept.antt =====
-- What is old is in the cull list, and `CullList::Apply` (src/cull_list.cpp) leaves nothing of it.
use hottpd.Base.{
  ℕ, ◌+◌, ◌==◌, ◌≡◌, ◌≤◌, ◌<◌, refl, ◌∙◌, false, Option, none, some, List, [], ◌∷◌, All, arith,
  Bool-cases, ◌⊎◌, inl, inr, ==_sym,
}
use hottpd.Connection.{St, Fd, opened, delete}
use hottpd.Server.{
  Client, Server, Outside, find_client, remove, occurrences, on_client, add, apply_culls,
  disconnect,
}
use hottpd.Server.Clients.{
  Distinct, remove-Distinct, All-concat, All-map, All-others, All-remove_others,
}
use hottpd.Server.Booking.{on_client-grows, delete-Books, Books}
use hottpd.Server.Invariant.{pushed}
use hottpd.Server.Lifetime.{on_client-Each}

-- What a connection is after a sweep at a time: not so old, or in the cull list.
abbrev pub Swept : ℕ → ℕ → List ℕ → Client → Type 0
Swept from total culls c = (from < c.age + total) ⊎ (1 ≤ occurrences c.address culls)

pub Swept-grows :
    (from total : ℕ) (culls after : List ℕ) (clients : List Client)
    → ((x : ℕ) → occurrences x culls ≤ occurrences x after)
    → All (Swept from total culls) clients
    → All (Swept from total after) clients
Swept-grows from total culls after clients f h =
    All-map (Swept from total culls) (Swept from total after) clients
      (λ c k. elim k [ inl young ↦ inl young | inr listed ↦ inr (omega (arith, f c.address)) ]) h

module _ {World : Type 0} (from total : ℕ) where
  abbrev pub IsSwept : Server World → Type 0
  IsSwept s = All (Swept from total s.culls) s.clients

  pub on_client-IsSwept :
      (f : St World → St World)
      → Books f
      → (a : ℕ) (s : Server World) → IsSwept s
      → IsSwept (on_client f a s)
  on_client-IsSwept f b a s h =
      Swept-grows from total s.culls (on_client f a s).culls (on_client f a s).clients
        (λ x. on_client-grows f b a x s)
        (on_client-Each (λ x age. (from < age + total) ⊎ (1 ≤ occurrences x s.culls)) f a s h)

  pub add-IsSwept :
      (outside : Outside World) (now made a : ℕ) (socket : Fd) (s : Server World)
      → 0 < total
      → from ≤ made
      → IsSwept s
      → IsSwept (add outside now made a socket s)
  unfolding add
  add-IsSwept outside now made a socket s pos later h =
      let w : World = (outside.add_fd s.world a socket).1 in
      let t : Server World = pushed now made a socket w s in
      let c : Client = record { address = a; age = made; conn = opened socket now } in
      let k : IsSwept t = All-concat (Swept from total s.culls) s.clients c h (inl (omega arith)) in
      elim (Bool-cases ((outside.add_fd s.world a socket).0)) [
        | inl e ↦ rw e k
        | inr e ↦ rw e (on_client-IsSwept delete delete-Books a t k)
      ]

  -- The cull list leaves nothing old.
  pub apply_culls-young :
      (outside : Outside World) (culls : List ℕ) (clients : List Client) (w : World)
      → Distinct clients
      → All (Swept from total culls) clients
      → All (λ c. from < c.age + total) ((apply_culls outside culls (clients, w)).0)
  unfolding apply_culls
  apply_culls-young outside [] clients w d h =
      All-map (Swept from total []) (λ c. from < c.age + total) clients
        (λ c k. elim k [ inl young ↦ young | inr listed ↦ omega arith ]) h
  apply_culls-young outside (a ∷ culls) clients w d h =
      let after : Option Client → List Client × World = λ o. elim o [
        | none ↦ apply_culls outside culls (clients, w)
        | some c ↦ apply_culls outside culls (remove a clients, disconnect outside w c)
      ] in
      let other : (c : Client)
          → (c.address == a) ≡ false
          → Swept from total (a ∷ culls) c
          → Swept from total culls c =
        λ c n k. elim k [
          | inl young ↦ inl young
          | inr listed ↦ inr (rw (==_sym a c.address ∙ n) at listed)
        ] in
      elim (find_client a clients)
          as (λ o. find_client a clients ≡ o → All (λ c. from < c.age + total) ((after o).0)) [
            | none ↦ λ e. apply_culls-young outside culls clients w d (
                All-others (Swept from total (a ∷ culls)) (Swept from total culls) a clients e other
                  h)
            | some c ↦ λ e.
                apply_culls-young outside culls (remove a clients) (disconnect outside w c)
                  (remove-Distinct a clients d)
                  (All-remove_others (Swept from total (a ∷ culls)) (Swept from total culls) a
                    clients d other h)
          ]
        refl
