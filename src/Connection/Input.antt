-- ===== src/Connection/Input.antt =====
-- What a connection receives: src/buffer.cpp (`ReadData`, `AddBuffer`) and src/connections.cpp
-- (`HandleEvent`).

use hottpd.Base.{
  ℕ, ◌+◌, ◌-◌, ◌%◌, ◌^◌, Bool, true, ◌&&◌, [], ◌∷◌, ◌++◌, ◌==◌, leb, ltb, if◌then◌else◌, length,
  take, Bytes, is_empty,
}
use hottpd.Connection.{
  http_recv_reqbody, http_wait_request, http_send_data, Config, Host, Hooks, delete,
}
use hottpd.Connection.Write.{State, is_state, is_magic}
use hottpd.Connection.Output.{serve_data, send_static_data, flush_write_buf}
use hottpd.Connection.Request.{check_request, recheck}

-- The answers of `read`. `read_again` is an error of `EAGAIN` or `EINTR`.
pub data ReadAnswer : Type 0 where
  read_bytes : Bytes → ReadAnswer
  read_eof read_again read_failed : ReadAnswer

-- `AddBuffer` takes the buffer as a C string: up to the first NUL.
unfoldable pub c_string : Bytes → Bytes
c_string [] = []
c_string (c ∷ s) = if c == 0 then [] else c ∷ c_string s

pub data Event : Type 0 where
  event_read : ReadAnswer → Event
  event_write event_error : Event

abbrev pub max_requestbuf : ℕ
max_requestbuf = 5120

module _ (host : Host) (conf : Config) (hooks : Hooks host.World) where
  abbrev within_limit : State host conf → Bool × State host conf
  within_limit s = (leb (length s.conn.requestbuf) max_requestbuf, s)

  -- Part of a body. The number of bytes that remain is an unsigned int.
  unfoldable pub add_body : Bytes → State host conf → State host conf
  add_body a s =
      let c = s.conn in
      let remains = (c.request_body_length + 2 ^ 32 - length c.request_body % 2 ^ 32) % 2 ^ 32 in
      if ltb remains (length a)
      then record s {
        conn = record c {
          request_body = c.request_body ++ take remains a;
          requestbuf = c.requestbuf ++ a;
        };
      }
      else record s { conn = record c { request_body = c.request_body ++ a } }

  unfoldable pub add_buffer : Bytes → State host conf → Bool × State host conf
  unfolding add_body recheck
  add_buffer a s =
      let filled = add_body a s in
      let queued = record s { conn = record (s.conn) { requestbuf = s.conn.requestbuf ++ a } } in
      if is_empty a
      then (true, s)
      else if is_state s.conn.state http_recv_reqbody
      then if length filled.conn.request_body == filled.conn.request_body_length
        then (true, serve_data host conf hooks (recheck host conf hooks) filled)
        else within_limit filled
      else if is_state s.conn.state http_wait_request
      then within_limit (
          check_request host conf hooks (length queued.conn.requestbuf + 1)
            (length s.conn.requestbuf) queued)
      else within_limit queued

  unfoldable pub read_data : ReadAnswer → State host conf → State host conf
  unfolding add_buffer c_string
  read_data answer s = if is_magic s.conn.socket then s else elim answer [
    | read_bytes bytes ↦
        let (done, t) = add_buffer (c_string bytes) s in if done then t else delete t
    | read_eof ↦ delete s
    | read_again ↦ s
    | read_failed ↦ delete s
  ]

  unfoldable pub handle_event : Event → State host conf → State host conf
  unfolding read_data flush_write_buf
  handle_event event s =
      let seen = record s { conn = record (s.conn) { last_socket_event = conf.stat_config.now } } in
      elim event [
        | event_read answer ↦ if seen.conn.quitting then seen else read_data answer seen
        | event_write ↦
            if is_state seen.conn.state http_send_data && seen.conn.response_backend
            then send_static_data host conf hooks (recheck host conf hooks) seen
            else flush_write_buf host conf hooks (recheck host conf hooks) seen
        | event_error ↦ delete seen
      ]
