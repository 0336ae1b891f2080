-- ===== src/Connection/Invariant/Input.antt =====
-- What `HandleEvent` and `ReadData` keep (src/connections.cpp, src/buffer.cpp).

use hottpd.Base.{
  ℕ, ◌+◌, ◌-◌, ◌%◌, ◌^◌, ◌≤◌, Bool, true, false, ◌&&◌, [], ◌∷◌, ◌++◌, ◌==◌, ltb, if◌then◌else◌,
  length, length-append, Bytes, is_empty, arith,
}
use hottpd.Connection.{
  http_recv_reqbody, http_wait_request, http_send_data, Config, Host, St, Hooks,
}
use hottpd.Connection.Write.{State, is_state, is_magic}
use hottpd.Connection.Request.{recheck}
use hottpd.Connection.Input.{
  ReadAnswer, read_bytes, read_eof, read_again, read_failed, c_string, Event, event_read,
  event_write, event_error, add_body, add_buffer, read_data, handle_event,
}
use hottpd.Connection.Invariant.{Inv, Keep, weaken, if-Inv, delete-Inv}
use hottpd.Connection.Invariant.Output.{serve_data-Inv, send_static_data-Inv, flush_write_buf-Inv}
use hottpd.Connection.Invariant.Loop.{check_request-Inv, recheck-Inv}

length-c_string : (a : Bytes) → length (c_string a) ≤ length a
unfolding c_string
length-c_string [] = omega arith
length-c_string (c ∷ s) = ground (arith, length-c_string s)

abbrev read_size : ReadAnswer → ℕ
read_size (read_bytes a) = length a
read_size _ = 0

-- The bytes that an event brings.
abbrev pub event_size : Event → ℕ
event_size (event_read answer) = read_size answer
event_size _ = 0

if-Inv-snd :
    {World : Type 0} {least bound : ℕ} (b : Bool) (x y : Bool × St World)
    → Inv least bound x.1
    → Inv least bound y.1
    → Inv least bound (if b then x else y).1
if-Inv-snd true x y i j = i
if-Inv-snd false x y i j = j

module _ (host : Host) (conf : Config) (hooks : Hooks host.World) (keep : Keep hooks) where
  longer :
      (least bound : ℕ) (a : Bytes) (s : State host conf)
      → Inv least bound s
      → length (s.conn.requestbuf ++ a) ≤ bound + length a
  longer least bound a s i = omega (arith, i.short, length-append s.conn.requestbuf a)

  add_body-Inv :
      (least bound : ℕ) (a : Bytes) (s : State host conf)
      → Inv least bound s
      → Inv least (bound + length a) (add_body host conf hooks a s)
  unfolding add_body
  add_body-Inv least bound a s i =
      if-Inv
        (ltb ((s.conn.request_body_length + 2 ^ 32 - length s.conn.request_body % 2 ^ 32) % 2 ^ 32)
          (length a))
        (record { fed = i.fed; short = longer least bound a s i; culled = i.culled; kept = i.kept })
        (record { fed = i.fed; short = omega (arith, i.short); culled = i.culled; kept = i.kept })

  add_buffer-Inv :
      (least bound : ℕ) (a : Bytes) (s : State host conf)
      → Inv least bound s
      → Inv least (bound + length a) (add_buffer host conf hooks a s).1
  unfolding add_buffer
  add_buffer-Inv least bound a s i =
      let n : ℕ = bound + length a in
      let filled : State host conf = add_body host conf hooks a s in
      let filled-Inv : Inv least n filled = add_body-Inv least bound a s i in
      let queued : State host conf = record s {
        conn = record (s.conn) { requestbuf = s.conn.requestbuf ++ a };
      } in
      let queued-Inv : Inv least n queued = record {
        fed = i.fed;
        short = longer least bound a s i;
        culled = i.culled;
        kept = i.kept;
      } in
      if-Inv-snd (is_empty a) _ _ (weaken least bound n s (omega arith) i) (
        if-Inv-snd (is_state s.conn.state http_recv_reqbody) _ _
          (if-Inv-snd (length filled.conn.request_body == filled.conn.request_body_length) _ _
            (serve_data-Inv host conf hooks keep least n (recheck host conf hooks)
              (recheck-Inv host conf hooks keep least n) filled filled-Inv)
            filled-Inv)
          (if-Inv-snd (is_state s.conn.state http_wait_request) _ _
            (check_request-Inv host conf hooks keep (length queued.conn.requestbuf + 1)
              (length s.conn.requestbuf) least n queued (omega arith) queued-Inv)
            queued-Inv))

  read_data-Inv :
      (least bound : ℕ) (a : ReadAnswer) (s : State host conf)
      → Inv least bound s
      → Inv least (bound + read_size a) (read_data host conf hooks a s)
  unfolding read_data
  read_data-Inv least bound (read_bytes a) s i =
      let t : State host conf = (add_buffer host conf hooks (c_string a) s).1 in
      let t-Inv : Inv least (bound + length a) t =
        weaken least (bound + length (c_string a)) (bound + length a) t
          (omega (arith, length-c_string a)) (add_buffer-Inv least bound (c_string a) s i) in
      if-Inv (is_magic s.conn.socket) (weaken least bound (bound + length a) s (omega arith) i) (
        if-Inv (add_buffer host conf hooks (c_string a) s).0 t-Inv
          (delete-Inv least (bound + length a) t t-Inv))
  read_data-Inv least bound read_again s i =
      weaken least bound (bound + 0) _ (omega arith) (if-Inv (is_magic s.conn.socket) i i)
  read_data-Inv least bound read_eof s i =
      weaken least bound (bound + 0) _ (omega arith)
        (if-Inv (is_magic s.conn.socket) i (delete-Inv least bound s i))
  read_data-Inv least bound read_failed s i =
      weaken least bound (bound + 0) _ (omega arith)
        (if-Inv (is_magic s.conn.socket) i (delete-Inv least bound s i))

  -- An event keeps the connection's invariant, if the modules do: the calls of CheckRequest do not
  -- run out of fuel, the request buffer grows by at most the bytes that the event brings, the
  -- connection is not taken off the cull list, and it stands there once if it is quitting, and else
  -- not at all.
  pub handle_event-Inv :
      (least bound : ℕ) (event : Event) (s : State host conf)
      → Inv least bound s
      → Inv least (bound + event_size event) (handle_event host conf hooks event s)
  unfolding handle_event
  handle_event-Inv least bound event s i =
      let seen : State host conf = record s {
        conn = record (s.conn) { last_socket_event = conf.stat_config.now };
      } in
      let seen-Inv : (n : ℕ) → bound ≤ n → Inv least n seen = λ n h.
        weaken least bound n seen h
          (record { fed = i.fed; short = i.short; culled = i.culled; kept = i.kept }) in
      elim event as (λ e. Inv least (bound + event_size e) (handle_event host conf hooks e s)) [
        | event_read answer ↦
            if-Inv seen.conn.quitting (seen-Inv (bound + read_size answer) (omega arith))
              (read_data-Inv least bound answer seen (seen-Inv bound (omega arith)))
        | event_write ↦
            let r : State host conf → State host conf = recheck host conf hooks in
            if-Inv (is_state seen.conn.state http_send_data && seen.conn.response_backend)
              (send_static_data-Inv host conf hooks keep least (bound + 0) r
                (recheck-Inv host conf hooks keep least (bound + 0)) seen
                (seen-Inv (bound + 0) (omega arith)))
              (flush_write_buf-Inv host conf hooks keep least (bound + 0) r
                (recheck-Inv host conf hooks keep least (bound + 0)) seen
                (seen-Inv (bound + 0) (omega arith)))
        | event_error ↦ delete-Inv least (bound + 0) seen (seen-Inv (bound + 0) (omega arith))
      ]
