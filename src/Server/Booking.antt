-- ===== src/Server/Booking.antt =====
-- The entries of the cull list, under what one connection does (src/connections.cpp) and under
-- `ConnectionManager::Delete`.
use hottpd.Base.{
  ℕ, zero, suc, ◌+◌, ◌-◌, ◌==◌, ◌≡◌, ◌≤◌, refl, ◌∙◌, ap, Bool, true, false, Option, none, some,
  List, [], ◌∷◌, ◌++◌, if◌then◌else◌, length, All, arith, ==_refl,
}
use hottpd.Connection.{Connection, Config, Host, St, Hooks, delete}
use hottpd.Connection.Input.{Event, handle_event}
use hottpd.Connection.Invariant.{Inv, Keep, delete-Inv}
use hottpd.Connection.Invariant.Input.{event_size, handle_event-Inv}
use hottpd.Server.{
  Client, Server, find_client, store, occurrences, times_over, placed, booked, on_client,
}
use hottpd.Server.Clients.{
  Distinct, store-Distinct, All-store, All-find, All-map, occurrences-append,
  occurrences-times_over,
}

-- A connection stands in the cull list once if it is quitting, and else not at all.
abbrev pub Booked : List ℕ → Client → Type 0
Booked culls c = occurrences c.address culls ≡ (if c.conn.quitting then 1 else 0)

abbrev pub is_live : List Client → ℕ → Bool
is_live clients a = elim (find_client a clients) [ none ↦ false | some _ ↦ true ]

-- The addresses are distinct, each entry of the cull list is the address of a connection, and each
-- connection has the entries that it is to have.
pub record Sound {World : Type 0} (s : Server World) : Type 0 where
  pub fed : s.starved ≡ false
  pub distinct : Distinct s.clients
  pub booked : All (Booked s.culls) s.clients
  pub live : All (λ a. is_live s.clients a ≡ true) s.culls

-- What a method does to the entries of its own connection.
pub record Books {World : Type 0} (f : St World → St World) : Type 0 where
  pub books :
      (t : St World)
      → t.starved ≡ false
      → t.culls ≡ (if t.conn.quitting then 1 else 0)
      → ((f t).starved ≡ false)
        × ((f t).culls ≡ (if (f t).conn.quitting then 1 else 0))
        × (t.culls ≤ (f t).culls)

pub delete-Books : {World : Type 0} → Books {World = World} delete
delete-Books = record {
  books = λ t fed culled.
      let i : Inv t.culls (length t.conn.requestbuf) (delete t) =
        delete-Inv t.culls (length t.conn.requestbuf) t
          (record { fed = fed; short = omega arith; kept = omega arith; culled = culled }) in
      (i.fed, i.culled, i.kept);
}

pub handle_event-Books :
    (host : Host) (conf : Config) (hooks : Hooks host.World)
    → Keep hooks
    → (event : Event) → Books (handle_event host conf hooks event)
handle_event-Books host conf hooks keep event = record {
  books = λ t fed culled.
      let n : ℕ = length t.conn.requestbuf in
      let i : Inv t.culls (n + event_size event) (handle_event host conf hooks event t) =
        handle_event-Inv host conf hooks keep t.culls n event t
          (record { fed = fed; short = omega arith; kept = omega arith; culled = culled }) in
      (i.fed, i.culled, i.kept);
}

pub is_live-store :
    (a x : ℕ) (conn : Connection) (clients : List Client)
    → is_live (store a conn clients) x ≡ is_live clients x
unfolding find_client store
is_live-store a x conn [] = refl
is_live-store a x conn (c ∷ clients) = ground (arith, is_live-store a x conn clients)

All-append : {A : Type 0} (P : A → Type 0) (xs ys : List A) → All P xs → All P ys → All P (xs ++ ys)
All-append P [] ys h k = k
All-append P (x ∷ xs) ys h k = (h.0, All-append P xs ys h.1 k)

All-times_over : (P : ℕ → Type 0) (a n : ℕ) → P a → All P (times_over n a)
All-times_over P a zero h = tt
All-times_over P a (suc n) h = (h, All-times_over P a n h)

module _ {World : Type 0} (f : St World → St World) (b : Books f) (a : ℕ) where
  -- The entries of every connection only grow.
  pub on_client-grows :
      (x : ℕ) (s : Server World) → occurrences x s.culls ≤ occurrences x (on_client f a s).culls
  unfolding on_client booked
  on_client-grows x s =
      let after : Option Client → Server World =
        λ o. elim o [ none ↦ s | some c ↦ booked c (f (placed c s)) s ] in
      elim (find_client a s.clients)
        as (λ o. occurrences x s.culls ≤ occurrences x (after o).culls) [
          | none ↦ omega arith
          | some c ↦ omega (
            arith,
            occurrences-append x s.culls
                (times_over ((f (placed c s)).culls - occurrences c.address s.culls) c.address),
          )
        ]

  module _ (s : Server World) (i : Sound s) (c : Client)
      (here : find_client a s.clients ≡ some c) where
    pub named : Booked s.culls c × (c.address ≡ a)
    named = All-find (Booked s.culls) a s.clients i.booked here

    -- The entries of the connection and of others, afterwards.
    pub entries :
        (x : ℕ)
        → occurrences x (booked c (f (placed c s)) s).culls
          ≡ occurrences x s.culls
            + (if c.address == x then (f (placed c s)).culls - occurrences c.address s.culls else 0)
    unfolding booked
    entries x =
        occurrences-append x s.culls
          (times_over ((f (placed c s)).culls - occurrences c.address s.culls) c.address)
        ∙ ap (λ n. occurrences x s.culls + n)
            (occurrences-times_over x c.address
              ((f (placed c s)).culls - occurrences c.address s.culls))

    found-Sound : Sound (booked c (f (placed c s)) s)
    unfolding booked
    found-Sound =
        let t : St World = f (placed c s) in
        let (fed, culled, kept) = b.books (placed c s) i.fed named.0 in
        let added : List ℕ = times_over (t.culls - occurrences c.address s.culls) c.address in
        let after : List ℕ = s.culls ++ added in
        let own : (d : Client) → d.address ≡ c.address → Booked after (record d { conn = t.conn }) =
          λ d same. rw same (entries c.address ∙ ground (arith, ==_refl c.address, culled, kept)) in
        let others : (d : Client)
            → (d.address == c.address) ≡ false
            → Booked s.culls d
            → Booked after d =
          λ d n h. entries d.address ∙ ground (arith, n, h) in
        let there : is_live s.clients c.address ≡ true =
          ap (λ x. is_live s.clients x) named.1 ∙ rw (is_live, here) refl in
        record {
          fed = fed;
          distinct = store-Distinct c.address t.conn s.clients i.distinct;
          booked =
              All-store (Booked s.culls) (Booked after) c.address t.conn s.clients i.distinct
                (λ d r h. own d (All-find (Booked s.culls) c.address s.clients i.booked r).1)
                (λ d n h. others d n h) i.booked;
          live =
              All-append (λ x. is_live (store c.address t.conn s.clients) x ≡ true) s.culls added
                (All-map (λ x. is_live s.clients x ≡ true)
                  (λ x. is_live (store c.address t.conn s.clients) x ≡ true) s.culls
                  (λ x l. is_live-store c.address x t.conn s.clients ∙ l) i.live)
                (All-times_over (λ x. is_live (store c.address t.conn s.clients) x ≡ true) c.address
                  (t.culls - occurrences c.address s.culls)
                  (is_live-store c.address c.address t.conn s.clients ∙ there));
        }

  pub on_client-Sound : (s : Server World) → Sound s → Sound (on_client f a s)
  unfolding on_client
  on_client-Sound s i =
      elim (find_client a s.clients)
          as (λ o.
            find_client a s.clients ≡ o
            → Sound (elim o [ none ↦ s | some c ↦ booked c (f (placed c s)) s ])) [
              | none ↦ λ e. i
              | some c ↦ λ e. found-Sound s i c e
            ]
        refl
