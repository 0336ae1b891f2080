-- ===== src/Connection/Tests.antt =====
-- A small system, and runs of a connection on it.
use hottpd.Base.{
  ◌≡◌, ◌≤◌, ◌+◌, refl, true, false, [], ◌++◌, Bytes, codes, length, eq_bytes, if◌then◌else◌, arith,
  some,
}
use hottpd.Connection.{Config, Host, Hooks, fd, opened, sent, opens, http_recv_reqbody}
use hottpd.Connection.Input.{Event, event_read, read_bytes, read_data, add_body, handle_event}
use hottpd.Connection.Invariant.{Inv, Keep}
use hottpd.Connection.Invariant.Input.{event_size, handle_event-Inv}
use hottpd.Connection.Invariant.Loop.{check_request-Inv}
use hottpd.Connection.Request.{check_request}
use hottpd.Connection.Limit.{Limited, read_data-Limited, add_body-Fits}
use hottpd.Connection.Write.{State}
use hottpd.Headers.{is_set, find, formatted, get_header, set_header, create_header}
use hottpd.Files.{found, failed, directory, regular, enoent}
use hottpd.Files.Tests.{tree, no_caches}

-- The world is what has been sent.
abbrev pub host : Host
host = record {
  World = Bytes;
  ask = λ w follow path. ((tree tt follow path).0, w);
  send = λ w socket text. (sent (length text), w ++ text);
  open_file = λ w noatime path. (opens 7, w);
  close_file = λ w file. w;
  map_file = λ w file size. (some (codes "hello"), w);
  geteuid = 0;
  date = λ now. codes "today";
}

abbrev pub conf : Config
conf = record {
  doc_root = codes "/srv/";
  keep_alive_max = 10;
  max_post_body = 100;
  no_atime = false;
  max_descriptors = 20;
  mime_types = [];
  stat_config = record { stat_cache_duration = 2; follow_sym_links = true; now = 100 };
}

abbrev pub hooks : Hooks host.World
hooks = record {
  on_pre_request = λ s method vhost dir file. (false, s);
  on_buffer_flushed = λ s. s;
}

pub hooks-Keep : Keep hooks
hooks-Keep = record {
  pre_request = λ least bound s method vhost dir file i. i;
  buffer_flushed = λ least bound s i. i;
}

abbrev pub fresh : State host conf
unfolding opened
fresh = record {
  conn = opened (fd 5) 100;
  caches = no_caches;
  want_write = false;
  culls = 0;
  starved = false;
  world = [];
}

pub fresh-Inv : Inv 0 0 fresh
unfolding fresh
fresh-Inv = record { fed = refl; short = omega arith; kept = omega arith; culled = refl }

abbrev pub get_f : Event
get_f = event_read (read_bytes (codes "GET /a/f HTTP/1.0\r\n\r\n"))

abbrev queued : State host conf
unfolding handle_event
queued = handle_event host conf hooks get_f fresh

queued_text :
    eq_bytes queued.conn.sendq (
      codes
        "HTTP/1.0 200 OK\r\nConnection: Close\r\nContent-Length: 5\r\nContent-Type: application/x-octet-stream\r\nDate: today\r\nServer: hottpd\r\n\r\n")
    ≡ true
unfolding queued eq_bytes fresh is_set find formatted get_header set_header create_header
queued_text = refl

handle_event-Inv_example : Inv 0 (0 + event_size get_f) queued
unfolding queued fresh
handle_event-Inv_example = handle_event-Inv host conf hooks hooks-Keep 0 0 get_f fresh fresh-Inv

check_request-Inv_example : Inv 0 0 (check_request host conf hooks 1 0 fresh)
check_request-Inv_example =
    check_request-Inv host conf hooks hooks-Keep 1 0 0 0 fresh (omega (arith, fresh-Inv.short))
      fresh-Inv

read_data-Limited_example : Limited (read_data host conf hooks (read_bytes (codes "GET /")) fresh)
unfolding fresh
read_data-Limited_example =
    read_data-Limited host conf hooks (read_bytes (codes "GET /")) fresh refl
      (omega (arith, fresh-Inv.short))

abbrev in_body : State host conf
unfolding fresh
in_body = record fresh {
  conn = record (fresh.conn) { state = http_recv_reqbody; request_body_length = 3 };
}

add_body-Fits_example :
    length (add_body host conf hooks (codes "abcd") in_body).conn.request_body ≤ 3
unfolding in_body
add_body-Fits_example =
    add_body-Fits host conf hooks (codes "abcd") in_body (omega arith) (omega arith)

-- A system with a file beside the document root.
abbrev open_host : Host
open_host = record {
  World = Bytes;
  ask = λ w follow path. (
    (if eq_bytes path (codes "/srv/..")
        then found (record { mode = directory; size = 0; uid = 0 })
        else if eq_bytes path (codes "/srv/../x")
        then found (record { mode = regular; size = 5; uid = 0 })
        else failed enoent),
    w,
  );
  send = host.send;
  open_file = host.open_file;
  close_file = host.close_file;
  map_file = host.map_file;
  geteuid = 0;
  date = host.date;
}

abbrev after_body : State open_host conf
unfolding handle_event fresh
after_body = handle_event open_host conf hooks (event_read (read_bytes (codes "b"))) (
    handle_event open_host conf hooks
      (event_read (read_bytes (codes "POST /../x HTTP/1.0\r\nContent-Length: 1\r\n\r\n"))) fresh)

-- A request with a body is served by its URI as it came.
body_skips_cleaning : after_body.conn.upath ≡ codes "/srv/../x"
unfolding after_body is_set find get_header set_header
body_skips_cleaning = refl
