-- ===== src/Connection/Delivery/Tests.antt =====
-- The answer to a request for a file, as it is sent.
use hottpd.Base.{
  ℕ, ◌≤◌, ◌+◌, ◌-◌, suc, ◌∷◌, ◌≡◌, refl, sym, ap, false, none, some, [], ◌++◌, decimal, Bytes,
  codes, length, eq_bytes, arith, inl,
}
use hottpd.Headers.{Headers, is_set, find, formatted, get_header, set_header, create_header}
use hottpd.Connection.{sent, fd, opened}
use hottpd.Connection.Input.{event_write, handle_event}
use hottpd.Connection.Tests.{host, conf, hooks, get_f}
use hottpd.Connection.Write.{State, is_magic}
use hottpd.Files.Tests.{no_caches}
use hottpd.Connection.Delivery.{IsWire, InFlight, Outcome, take_all}
use hottpd.Connection.Delivery.Writable.{ending, handle_event-Outcome}
use hottpd.Connection.Delivery.Progress.{Takes}
use hottpd.Connection.Delivery.Delivered.{write_events, write_events-delivers, serve_data-delivers}
use hottpd.Connection.Delivery.Head.{length_name, head}
use hottpd.Connection.Delivery.Begin.{IsStill}
use hottpd.Connection.Output.{serve_data}
use hottpd.Connection.Request.{recheck}
use hottpd.Files.{regular, check_file_path, serve, StatBuf}

host-IsWire : IsWire host (λ w. w)
host-IsWire = record {
  accepted = λ w socket text n r.
      let all : length text ≡ n = ap (λ a. elim a [ sent m ↦ m | _ ↦ 0 ]) r in
      (omega (arith, all), ap (λ l. w ++ l) (sym (take_all n text (omega (arith, all)))));
  blocked = λ w socket text r. ground (arith, r);
  mapped = λ w file size. refl;
}

abbrev asking : State host conf
unfolding opened
asking = record {
  conn = opened (fd 5) 100;
  caches = no_caches;
  want_write = false;
  culls = 0;
  starved = false;
  world = [];
}

abbrev queued : State host conf
unfolding asking handle_event
queued = handle_event host conf hooks get_f asking

abbrev whole : Bytes
unfolding queued
whole = queued.conn.sendq ++ codes "hello"

queued-InFlight : InFlight host conf (λ w. w) (codes "hello") 7 whole queued
unfolding whole queued asking eq_bytes is_set find formatted get_header set_header create_header
queued-InFlight = record {
  backend = refl;
  unfinished = refl;
  served = refl;
  size = refl;
  within = omega arith;
  phase = inl refl;
  total = refl;
}

handle_event-Outcome_example :
    Outcome host conf
      (λ w. w)
      (codes "hello")
      7
      (ending host conf hooks)
      whole
      (handle_event host conf hooks event_write queued)
handle_event-Outcome_example =
    handle_event-Outcome host conf hooks (λ w. w) (codes "hello") 7 host-IsWire
      (λ w text r. ap (λ o. elim o [ none ↦ [] | some x ↦ x ]) (sym r)) (λ s. refl) whole queued
      queued-InFlight

none_taken : (text : Bytes) → length text ≡ 0 → text ≡ []
none_taken [] e = refl
none_taken (x ∷ text) e = absurd (omega (arith, e))

host-Takes : Takes host
host-Takes w socket text = (length text, refl, none_taken text)

queued-IsReal : is_magic queued.conn.socket ≡ false
unfolding queued is_set find
queued-IsReal = refl

write_events-delivers_example :
    (n : ℕ) × (t : State host conf) × (n
      ≤ suc (length queued.conn.sendq + (length (codes "hello") - queued.conn.rfilesent)))
    × (t.world ≡ whole)
    × (write_events host conf hooks n queued ≡ ending host conf hooks t)
write_events-delivers_example =
    write_events-delivers host conf hooks (λ w. w) (codes "hello") 7 host-IsWire host-Takes
      (λ w. refl) (λ s. refl) whole queued queued-InFlight queued-IsReal

host-IsStill : IsStill host (λ w. w)
host-IsStill = record {
  asked = λ w follow path. refl;
  opened = λ w noatime path. refl;
  closed = λ w f. refl;
}

-- The request line has been read, and the path is set.
abbrev named : State host conf
unfolding asking
named = record asking { conn = record (asking.conn) { uri = codes "/a/f" } }

abbrev a_file : StatBuf
a_file = record { mode = regular; size = 5; uid = 0 }

found_named :
    (check_file_path host.ask conf.stat_config conf.doc_root named.conn.uri
      (named.caches, named.world)).0
    ≡ serve (codes "/srv/a/f") a_file
unfolding named check_file_path
found_named = refl

abbrev answering : State host conf
unfolding named serve_data
answering = serve_data host conf hooks (recheck host conf hooks) named

serve_data-delivers_example :
    (hs : Headers) × (n : ℕ) × (t : State host conf) × (find length_name hs ≡ some (codes "5"))
    × (n ≤ suc (length answering.conn.sendq + (length (codes "hello") - answering.conn.rfilesent)))
    × (t.world
        ≡ (named.world ++ named.conn.sendq)
          ++ (head host conf 200 (codes "OK") hs named ++ codes "hello"))
    × (write_events host conf hooks n answering ≡ ending host conf hooks t)
unfolding named answering decimal
serve_data-delivers_example =
    serve_data-delivers host conf hooks (λ w. w) (codes "hello") 7 host-IsWire host-IsStill
      host-Takes (λ w. refl) (λ s. refl) (codes "/srv/a/f") a_file refl (omega arith) (λ w. refl)
      named found_named refl refl
