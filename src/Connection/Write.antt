-- ===== src/Connection/Write.antt =====
-- The parts of sending that do not end a request: src/buffer.cpp (`Write`, the first half of
-- `FlushWriteBuf`), src/backend_write.cpp (`ServeFile`), and what `EndRequest` resets.
use mathlib.Core.Bool.{not}
use hottpd.Base.{
  ◌+◌, ◌-◌, Bool, true, false, ◌&&◌, none, some, [], ◌++◌, ◌==◌, if◌then◌else◌, length, take, drop,
  Bytes, is_empty,
}
use hottpd.Connection.{
  HttpState, http_wait_request, http_send_headers, http_send_data, http_finished, http_unspecified,
  Fd, magic_fd, Connection, Config, sent, would_block, send_failed, Host, St, delete, request_write,
  bounds_check_fd,
}

abbrev pub is_state : HttpState → HttpState → Bool
is_state http_send_data http_send_data = true
is_state http_send_headers http_send_headers = true
is_state http_wait_request http_wait_request = true
is_state HttpState.http_recv_reqbody HttpState.http_recv_reqbody = true
is_state http_finished http_finished = true
is_state _ _ = false

abbrev pub is_magic : Fd → Bool
is_magic magic_fd = true
is_magic _ = false

-- The members that `EndRequest` resets.
abbrev pub reset : Connection → Connection
reset c = record c {
  headers = [];
  method = [];
  uri = [];
  uriquery = [];
  upath = [];
  request_body = [];
  http_version = http_unspecified;
  request_body_length = 0;
  state = http_wait_request;
  response_backend = false;
  response_buffer_done = false;
  rfilesize = 0;
  rfilesent = 0;
}

module _ (host : Host) (conf : Config) where
  abbrev pub State : Type 0
  State = St host.World

  -- `Write`: nothing is queued on a descriptor out of range.
  unfoldable pub write : Bytes → State → State
  unfolding bounds_check_fd request_write
  write text s =
      if bounds_check_fd conf.max_descriptors s.conn.socket
      then request_write (record s { conn = record (s.conn) { sendq = s.conn.sendq ++ text } })
      else s

  -- `WriteBackend::ServeFile`; true if it did not fail. Without a file `mmap` fails.
  unfoldable pub serve_file : State → Bool × State
  serve_file s = elim s.conn.filefd [
    | none ↦ (false, s)
    | some file ↦
        let (mapped, w) = host.map_file s.world file s.conn.rfilesize in
        elim mapped [
          | none ↦ (false, record s { world = w })
          | some fdata ↦
              let (answer, w') =
                host.send w s.conn.socket
                  (take (s.conn.rfilesize - s.conn.rfilesent) (drop s.conn.rfilesent fdata)) in
              elim answer [
                | sent n ↦ (
                  true,
                  record s {
                    conn = record (s.conn) { rfilesent = s.conn.rfilesent + n };
                    world = w';
                  },
                )
                | would_block ↦ (true, record s { world = w' })
                | send_failed ↦ (false, record s { world = w' })
              ]
        ]
  ]

  unfoldable pub close_filefd : State → State
  close_filefd s = elim s.conn.filefd [
    | none ↦ s
    | some file ↦ record s {
      conn = record (s.conn) { filefd = none };
      world = host.close_file s.world file;
    }
  ]

  -- The first half of `FlushWriteBuf`; false where it returns.
  unfoldable pub drain : State → Bool × State
  unfolding delete request_write
  drain s =
      if not (is_empty s.conn.sendq) && not (is_magic s.conn.socket)
      then (let (answer, w) = host.send s.world s.conn.socket s.conn.sendq in
          let after = record s { world = w } in
          elim answer [
            | sent n ↦
                let rest = record after {
                  conn = record (s.conn) { sendq = drop n s.conn.sendq };
                } in
                (true, if n == length s.conn.sendq then rest else request_write rest)
            | would_block ↦ (true, request_write after)
            | send_failed ↦ (false, delete after)
          ])
      else (true, s)
