-- ===== src/Server/Tests.antt =====
-- A connection that is accepted, asks for a file and is culled, and one that is never heard of.
use hottpd.Base.{◌≡◌, ◌<◌, ◌+◌, refl, true, false, [], ◌++◌, codes, length, eq_bytes, arith, All}
use hottpd.Connection.{fd}
use hottpd.Connection.Input.{handle_event, event_write}
use hottpd.Connection.Tests.{host, conf, hooks, hooks-Keep, get_f}
use hottpd.Files.Tests.{no_caches}
use hottpd.Headers.{is_set, find, formatted, get_header, set_header, create_header}
use hottpd.Server.{Limits, Outside, find_client, on_client, add, apply, begin, is_full, expired}
use hottpd.Server.Steps.{
  Servers, Dispatch, idle, event, accept, ready, turn, started, Reach, start, iterate, Run, stop,
  again, at_time,
}
use hottpd.Server.Booking.{Sound}
use hottpd.Server.Invariant.{IsSettled, Reach-IsSettled, dispatched-Sound}
use hottpd.Server.Sweep.{Run-young}
use hottpd.Server.Bound.{Bounded, Reach-Bounded}

abbrev outside : Outside host.World
outside = record {
  add_fd = λ w a socket. (true, w);
  del_fd = λ w a socket. w;
  on_connection_connect = λ w a. w;
  on_connection_disconnect = λ w a. w ++ codes "bye";
  close_socket = λ w socket. w;
  close_file = λ w file. w;
  background = λ w now. w;
}

abbrev limits : Limits
limits = record {
  soft_limit = 2;
  max_clients = 1000;
  timeout_cull_frequency = 2;
  timeout_total_lifetime = 30;
  timeout_idle_lifetime = 10;
}

abbrev State : Type 0
State = Servers host conf hooks limits outside

abbrev initial : State
initial = started host conf hooks limits outside no_caches []

abbrev first : State
unfolding begin
first = begin limits outside 100 true initial

-- The connection at 8 asks, and is answered in full; the one at 9 is silent.
abbrev served : State
unfolding add on_client handle_event
served = on_client (handle_event host (at_time conf 100) hooks event_write) 8 (
    on_client (handle_event host (at_time conf 100) hooks get_f) 8
      (add outside 100 101 9 (fd 6) (add outside 100 100 8 (fd 5) first)))

dispatched : Dispatch host conf hooks limits outside 100 first served
unfolding served first begin is_full find_client add
dispatched =
    event
      (event
        (event (event idle (accept 100 8 (fd 5) (omega arith) refl refl))
          (accept 101 9 (fd 6) (omega arith) refl refl))
        (ready 8 get_f))
      (ready 8 event_write)

abbrev culled : State
unfolding apply
culled = apply outside served

one_left : length culled.clients ≡ 1
unfolding culled served first begin eq_bytes find_client add is_set find formatted get_header
    set_header create_header apply
one_left = refl

started_up : Reach host conf hooks limits outside initial
started_up = start no_caches []

reached : Reach host conf hooks limits outside culled
unfolding culled first
reached = iterate 100 started_up (turn true dispatched)

Reach-IsSettled_example : IsSettled culled
Reach-IsSettled_example = Reach-IsSettled host conf hooks limits outside hooks-Keep reached

dispatched-Sound_example : Sound served
unfolding begin first served
dispatched-Sound_example =
    dispatched-Sound host conf hooks limits outside hooks-Keep 100 true started_up dispatched

Reach-Bounded_example : Bounded host conf hooks limits outside culled
Reach-Bounded_example = Reach-Bounded host conf hooks limits outside (omega arith) reached

abbrev later : State → State
unfolding begin apply
later s = apply outside (begin limits outside 200 false s)

waited : Run host conf hooks limits outside 200 culled 3 (later (later (later culled)))
unfolding later
waited =
    again 200 (omega arith)
      (again 200 (omega arith) (again 200 (omega arith) stop (turn false idle)) (turn false idle))
      (turn false idle)

Run-young_example : All (λ c. 200 < c.age + 30) (later (later (later culled))).clients
Run-young_example =
    Run-young host conf hooks limits outside hooks-Keep 200 (omega arith) reached (omega arith)
      waited

-- The silent one has been culled.
none_left : length (later (later (later culled))).clients ≡ 0
unfolding later culled served first begin eq_bytes find_client add is_set find formatted get_header
    set_header create_header apply expired
none_left = refl
