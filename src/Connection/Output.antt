-- ===== src/Connection/Output.antt =====
-- What a connection sends: src/buffer.cpp (`FlushWriteBuf`), src/connections.cpp
-- (`SendError`), src/request.cpp (`SendHeaders`, `ServeData`, `SendStaticData`, `EndRequest`).
-- `check` stands for the call of `CheckRequest(0)` in `EndRequest`.
use mathlib.Core.Bool.{not}
use hottpd.Base.{
  ℕ, ◌+◌, Bool, true, false, ◌&&◌, none, some, [], ◌++◌, ◌==◌, if◌then◌else◌, length, Bytes, codes,
  is_empty, decimal,
}
use hottpd.Files.{
  Errno, eacces, enoent, eloop, enametoolong, enotdir, StatBuf, serve, refuse, check_file_path,
}
use hottpd.Headers.{Headers, set_header, formatted}
use hottpd.Connection.{
  http_send_headers, http_send_data, http_finished, Config, opens, refuses, Host, Hooks, delete,
  request_write,
}
use hottpd.Connection.Write.{State, is_state, reset, write, serve_file, close_filefd, drain}
use hottpd.Connection.Response.{response_headers, connection_header, version_text, error_page}

module _ (host : Host) (conf : Config) (hooks : Hooks host.World) where
  module _ (check : State host conf → State host conf) where
    unfoldable pub end_request : State host conf → State host conf
    unfolding close_filefd delete
    end_request s =
        let counted = record s {
          conn = record (s.conn) { requests_completed = s.conn.requests_completed + 1 };
        } in
        let next = close_filefd host conf (record counted { conn = reset counted.conn }) in
        let checked = check next in
        if not s.conn.keepalive
        then delete (record counted { conn = record (counted.conn) { state = http_finished } })
        else if is_empty next.conn.requestbuf
        then next
        else checked

    unfoldable pub send_static_data : State host conf → State host conf
    unfolding serve_file end_request request_write
    send_static_data s =
        let s' : State host conf = elim s.conn.filefd [ none ↦ delete s | some _ ↦ s ] in
        let (served, t) = serve_file host conf s' in
        if not served
        then delete t
        else if t.conn.rfilesent == t.conn.rfilesize
        then end_request t
        else request_write t

    -- The second half, once the queue is empty.
    unfoldable pub flushed : State host conf → State host conf
    unfolding send_static_data
    flushed s =
        let t = hooks.on_buffer_flushed s in
        if is_state t.conn.state http_send_data && t.conn.response_buffer_done
        then end_request t
        else if is_state t.conn.state http_send_headers && t.conn.response_backend
        then send_static_data (record t { conn = record (t.conn) { state = http_send_data } })
        else t

    unfoldable pub flush_write_buf : State host conf → State host conf
    unfolding drain flushed
    flush_write_buf s =
        let (goes_on, t) = drain host conf s in
        if not goes_on then t else if is_empty t.conn.sendq then flushed t else t

    unfoldable pub send_headers : ℕ → ℕ → Bytes → Headers → State host conf → State host conf
    unfolding write response_headers connection_header end_request
    send_headers size response rtext rheaders s =
        let begun = record s { conn = record (s.conn) { state = http_send_headers } } in
        let status =
          write host conf (decimal response ++ codes " " ++ rtext ++ codes "\r\n")
            (write host conf (version_text s.conn.http_version) begun) in
        let (keepalive, hs) =
          connection_header s.conn.keepalive
            (response_headers host conf size s.conn.uri rheaders) in
        let kept = record status { conn = record (status.conn) { keepalive = keepalive } } in
        let written = write host conf (codes "\r\n") (write host conf (formatted hs) kept) in
        if size == 0 then end_request written else written

    unfoldable pub send_error : ℕ → Bytes → Bool → State host conf → State host conf
    unfolding send_headers error_page flush_write_buf
    send_error code text fatal s =
        let page = error_page text in
        let bare = record s { conn = record (s.conn) { response_backend = false } } in
        let headed =
          send_headers (length page) code text
            (set_header (codes "Content-Type") (codes "text/html") []) bare in
        let written =
          write host conf page
            (record headed { conn = record (headed.conn) { state = http_send_data } }) in
        let t =
          flush_write_buf
            (record written { conn = record (written.conn) { response_buffer_done = true } }) in
        if fatal then record t { conn = record (t.conn) { keepalive = false } } else t

    abbrev pub path_error : Errno → State host conf → State host conf
    path_error eacces = send_error 403 (codes "Forbidden") false
    path_error enoent = send_error 404 (codes "File Not Found") false
    path_error eloop = send_error 404 (codes "File Not Found") false
    path_error enametoolong = send_error 404 (codes "File Not Found") false
    path_error enotdir = send_error 404 (codes "File Not Found") false
    path_error _ = send_error 500 (codes "Internal Server Error") false

    abbrev pub open_error : Errno → State host conf → State host conf
    open_error eacces = send_error 403 (codes "Forbidden") false
    open_error enoent = send_error 404 (codes "File Not Found") false
    open_error enotdir = send_error 404 (codes "File Not Found") false
    open_error _ = send_error 500 (codes "Internal Server Error") false

    unfoldable pub serve_opened : StatBuf → ℕ → State host conf → State host conf
    serve_opened st file s = send_headers st.size 200 (codes "OK") [] (record s {
      conn = record (s.conn) {
        filefd = some file;
        rfilesize = st.size;
        rfilesent = 0;
        response_backend = true;
      };
    })

    unfoldable pub serve_path : Bytes → StatBuf → State host conf → State host conf
    unfolding close_filefd serve_opened
    serve_path upath st s =
        let named =
          close_filefd host conf (record s { conn = record (s.conn) { upath = upath } }) in
        let (answer, w) =
          host.open_file named.world (conf.no_atime && st.uid == host.geteuid) upath in
        let t = record named { world = w } in
        elim answer [ opens file ↦ serve_opened st file t | refuses e ↦ open_error e t ]

    unfoldable pub serve_data : State host conf → State host conf
    unfolding serve_path send_error check_file_path
    serve_data s =
        let (answer, fs) =
          check_file_path host.ask conf.stat_config conf.doc_root s.conn.uri (s.caches, s.world) in
        let t = record s { caches = fs.0; world = fs.1 } in
        elim answer [
          | serve upath st ↦ serve_path upath st t
          | refuse e ↦ path_error e (record t { conn = record (t.conn) { upath = [] } })
        ]
