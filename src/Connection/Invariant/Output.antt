-- ===== src/Connection/Invariant/Output.antt =====
-- The invariant of a connection under the parts that send (src/request.cpp, src/buffer.cpp and
-- src/connections.cpp).
use mathlib.Core.Bool.{not}
use hottpd.Base.{
  ℕ, ◌+◌, Bool, true, false, ◌&&◌, none, some, [], ◌++◌, ◌==◌, length, Bytes, codes, is_empty,
  decimal, arith,
}
use hottpd.Files.{
  Caches, Errno, eacces, enoent, eloop, enametoolong, enotdir, StatBuf, PathAnswer, serve, refuse,
  check_file_path,
}
use hottpd.Headers.{Headers, set_header, formatted}
use hottpd.Connection.Response.{response_headers, connection_header, version_text, error_page}
use hottpd.Connection.{
  http_send_data, http_send_headers, http_finished, Config, Host, Hooks, delete, request_write,
  OpenAnswer, opens, refuses,
}
use hottpd.Connection.Write.{State, reset, write, serve_file, close_filefd, drain}
use hottpd.Connection.Output.{
  end_request, send_static_data, flushed, flush_write_buf, send_headers, send_error, path_error,
  open_error, serve_opened, serve_path, serve_data,
}
use hottpd.Connection.Invariant.{
  Inv, Keep, if-Inv, delete-Inv, write-Inv, serve_file-Inv, close_filefd-Inv, drain-Inv,
}

module _ (host : Host) (conf : Config) (hooks : Hooks host.World) (keep : Keep hooks)
    (least bound : ℕ) where
  module _ (check : State host conf → State host conf)
      (checks : (s : State host conf) → Inv least bound s → Inv least bound (check s)) where
    pub end_request-Inv :
        (s : State host conf)
        → Inv least bound s
        → Inv least bound (end_request host conf hooks check s)
    unfolding end_request
    end_request-Inv s i =
        let counted : State host conf = record s {
          conn = record (s.conn) { requests_completed = s.conn.requests_completed + 1 };
        } in
        let next : State host conf =
          close_filefd host conf (record counted { conn = reset counted.conn }) in
        let next-Inv : Inv least bound next =
          close_filefd-Inv host conf least bound (record counted { conn = reset counted.conn })
            (record { fed = i.fed; short = i.short; culled = i.culled; kept = i.kept }) in
        let next-checked : Inv least bound (check next) = checks next next-Inv in
        let gone : Inv least bound
            (delete (record counted { conn = record (counted.conn) { state = http_finished } })) =
          delete-Inv least bound
            (record counted { conn = record (counted.conn) { state = http_finished } })
            (record { fed = i.fed; short = i.short; culled = i.culled; kept = i.kept }) in
        ground arith

    pub send_static_data-Inv :
        (s : State host conf)
        → Inv least bound s
        → Inv least bound (send_static_data host conf hooks check s)
    unfolding send_static_data request_write
    send_static_data-Inv s i =
        let s' : State host conf = elim s.conn.filefd [ none ↦ delete s | some _ ↦ s ] in
        let s'-Inv : Inv least bound s' =
          elim s.conn.filefd as (λ f. Inv least bound (elim f [ none ↦ delete s | some _ ↦ s ])) [
            | none ↦ delete-Inv least bound s i
            | some _ ↦ i
          ] in
        let t : State host conf = (serve_file host conf s').1 in
        let t-Inv : Inv least bound t = serve_file-Inv host conf least bound s' s'-Inv in
        let gone : Inv least bound (delete t) = delete-Inv least bound t t-Inv in
        let ended : Inv least bound (end_request host conf hooks check t) =
          end_request-Inv t t-Inv in
        ground arith

    pub flushed-Inv :
        (s : State host conf)
        → Inv least bound s
        → Inv least bound (flushed host conf hooks check s)
    unfolding flushed
    flushed-Inv s i =
        let t : State host conf = hooks.on_buffer_flushed s in
        let t-Inv : Inv least bound t = keep.buffer_flushed least bound s i in
        let u : State host conf = record t { conn = record (t.conn) { state = http_send_data } } in
        let u-Inv : Inv least bound u = record {
          fed = t-Inv.fed;
          short = t-Inv.short;
          culled = t-Inv.culled;
          kept = t-Inv.kept;
        } in
        let sent-Inv : Inv least bound (send_static_data host conf hooks check u) =
          send_static_data-Inv u u-Inv in
        let ended : Inv least bound (end_request host conf hooks check t) =
          end_request-Inv t t-Inv in
        ground arith

    pub flush_write_buf-Inv :
        (s : State host conf)
        → Inv least bound s
        → Inv least bound (flush_write_buf host conf hooks check s)
    unfolding flush_write_buf
    flush_write_buf-Inv s i =
        let t : State host conf = (drain host conf s).1 in
        let t-Inv : Inv least bound t = drain-Inv host conf least bound s i in
        if-Inv (not (drain host conf s).0) t-Inv
          (if-Inv (is_empty t.conn.sendq) (flushed-Inv t t-Inv) t-Inv)

    pub send_headers-Inv :
        (size response : ℕ) (rtext : Bytes) (rheaders : Headers) (s : State host conf)
        → Inv least bound s
        → Inv least bound (send_headers host conf hooks check size response rtext rheaders s)
    unfolding send_headers
    send_headers-Inv size response rtext rheaders s i =
        let begun : State host conf = record s {
          conn = record (s.conn) { state = http_send_headers };
        } in
        let version : State host conf = write host conf (version_text s.conn.http_version) begun in
        let line : Bytes = decimal response ++ codes " " ++ rtext ++ codes "\r\n" in
        let status : State host conf = write host conf line version in
        let status-Inv : Inv least bound status = write-Inv host conf least bound line version (
          write-Inv host conf least bound (version_text s.conn.http_version) begun
            (record { fed = i.fed; short = i.short; culled = i.culled; kept = i.kept })) in
        let choice : Bool × Headers =
          connection_header s.conn.keepalive
            (response_headers host conf size s.conn.uri rheaders) in
        let kept : State host conf = record status {
          conn = record (status.conn) { keepalive = choice.0 };
        } in
        let formed : State host conf = write host conf (formatted choice.1) kept in
        let written : State host conf = write host conf (codes "\r\n") formed in
        let written-Inv : Inv least bound written =
          write-Inv host conf least bound (codes "\r\n") formed (
            write-Inv host conf least bound (formatted choice.1) kept (record {
              fed = status-Inv.fed;
              short = status-Inv.short;
              culled = status-Inv.culled;
              kept = status-Inv.kept;
            })) in
        let ended : Inv least bound (end_request host conf hooks check written) =
          end_request-Inv written written-Inv in
        if-Inv (size == 0) ended written-Inv

    pub send_error-Inv :
        (code : ℕ) (text : Bytes) (fatal : Bool) (s : State host conf)
        → Inv least bound s
        → Inv least bound (send_error host conf hooks check code text fatal s)
    unfolding send_error
    send_error-Inv code text fatal s i =
        let bare : State host conf = record s {
          conn = record (s.conn) { response_backend = false };
        } in
        let page : Bytes = error_page text in
        let hs : Headers = set_header (codes "Content-Type") (codes "text/html") [] in
        let headed : State host conf =
          send_headers host conf hooks check (length page) code text hs bare in
        let headed-Inv : Inv least bound headed =
          send_headers-Inv (length page) code text hs bare
            (record { fed = i.fed; short = i.short; culled = i.culled; kept = i.kept }) in
        let sending : State host conf = record headed {
          conn = record (headed.conn) { state = http_send_data };
        } in
        let written : State host conf = write host conf page sending in
        let written-Inv : Inv least bound written =
          write-Inv host conf least bound page sending (record {
            fed = headed-Inv.fed;
            short = headed-Inv.short;
            culled = headed-Inv.culled;
            kept = headed-Inv.kept;
          }) in
        let done : State host conf = record written {
          conn = record (written.conn) { response_buffer_done = true };
        } in
        let t : State host conf = flush_write_buf host conf hooks check done in
        let t-Inv : Inv least bound t = flush_write_buf-Inv done (record {
          fed = written-Inv.fed;
          short = written-Inv.short;
          culled = written-Inv.culled;
          kept = written-Inv.kept;
        }) in
        if-Inv fatal
          (record {
            fed = t-Inv.fed;
            short = t-Inv.short;
            culled = t-Inv.culled;
            kept = t-Inv.kept;
          })
          t-Inv

    path_error-Inv :
        (e : Errno) (s : State host conf)
        → Inv least bound s
        → Inv least bound (path_error host conf hooks check e s)
    path_error-Inv eacces s i = send_error-Inv _ _ _ s i
    path_error-Inv enoent s i = send_error-Inv _ _ _ s i
    path_error-Inv eloop s i = send_error-Inv _ _ _ s i
    path_error-Inv enametoolong s i = send_error-Inv _ _ _ s i
    path_error-Inv enotdir s i = send_error-Inv _ _ _ s i
    path_error-Inv _ s i = send_error-Inv _ _ _ s i

    open_error-Inv :
        (e : Errno) (s : State host conf)
        → Inv least bound s
        → Inv least bound (open_error host conf hooks check e s)
    open_error-Inv eacces s i = send_error-Inv _ _ _ s i
    open_error-Inv enoent s i = send_error-Inv _ _ _ s i
    open_error-Inv enotdir s i = send_error-Inv _ _ _ s i
    open_error-Inv _ s i = send_error-Inv _ _ _ s i

    serve_opened-Inv :
        (st : StatBuf) (file : ℕ) (s : State host conf)
        → Inv least bound s
        → Inv least bound (serve_opened host conf hooks check st file s)
    unfolding serve_opened
    serve_opened-Inv st file s i =
        send_headers-Inv _ _ _ _ _
          (record { fed = i.fed; short = i.short; culled = i.culled; kept = i.kept })

    serve_path-Inv :
        (upath : Bytes) (st : StatBuf) (s : State host conf)
        → Inv least bound s
        → Inv least bound (serve_path host conf hooks check upath st s)
    unfolding serve_path
    serve_path-Inv upath st s i =
        let stored : State host conf = record s { conn = record (s.conn) { upath = upath } } in
        let named : State host conf = close_filefd host conf stored in
        let named-Inv : Inv least bound named =
          close_filefd-Inv host conf least bound stored
            (record { fed = i.fed; short = i.short; culled = i.culled; kept = i.kept }) in
        let answer : OpenAnswer × host.World =
          host.open_file named.world (conf.no_atime && st.uid == host.geteuid) upath in
        let t : State host conf = record named { world = answer.1 } in
        let t-Inv : Inv least bound t = record {
          fed = named-Inv.fed;
          short = named-Inv.short;
          culled = named-Inv.culled;
          kept = named-Inv.kept;
        } in
        elim answer.0
          as (λ a. Inv least bound (elim a [
            | opens file ↦ serve_opened host conf hooks check st file t
            | refuses e ↦ open_error host conf hooks check e t
          ])) [
            | opens file ↦ serve_opened-Inv st file t t-Inv
            | refuses e ↦ open_error-Inv e t t-Inv
          ]

    pub serve_data-Inv :
        (s : State host conf)
        → Inv least bound s
        → Inv least bound (serve_data host conf hooks check s)
    unfolding serve_data
    serve_data-Inv s i =
        let found : PathAnswer × (Caches × host.World) =
          check_file_path host.ask conf.stat_config conf.doc_root s.conn.uri (s.caches, s.world) in
        let t : State host conf = record s { caches = found.1.0; world = found.1.1 } in
        let t-Inv : Inv least bound t = record {
          fed = i.fed;
          short = i.short;
          culled = i.culled;
          kept = i.kept;
        } in
        elim found.0
          as (λ a. Inv least bound (elim a [
            | serve upath st ↦ serve_path host conf hooks check upath st t
            | refuse e ↦
                path_error host conf hooks check e
                  (record t { conn = record (t.conn) { upath = [] } })
          ])) [
            | serve upath st ↦ serve_path-Inv upath st t t-Inv
            | refuse e ↦
                path_error-Inv e _
                  (record { fed = i.fed; short = i.short; culled = i.culled; kept = i.kept })
          ]
