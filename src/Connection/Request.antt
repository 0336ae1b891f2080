-- ===== src/Connection/Request.antt =====
-- src/request.cpp: `Connection::CheckRequest`. Fuel bounds how often it is entered again from
-- `EndRequest`: the length of the buffer plus one, as each entry takes a whole request out of it.
use mathlib.Core.Bool.{not}
use mathlib.Core.List.{map}
use hottpd.Base.{
  ℕ, zero, suc, ◌+◌, ◌-◌, Bool, true, false, ◌&&◌, ◌||◌, Option, none, some, [], ◌==◌, leb, ltb,
  if◌then◌else◌, length, take, drop, Bytes, codes, is_empty, eq_bytes, toupper, atoi_u32,
  rfind_char, find_text_from,
}
use hottpd.Headers.{same_name, get_header, is_set}
use hottpd.Uri.{handle_uri}
use hottpd.Connection.{
  http_recv_reqbody, http_unspecified, HttpVersion, Connection, Config, Host, Hooks,
}
use hottpd.Connection.Parse.{Parsed, accepted, rejected, crlf_lines, header_lines}
use hottpd.Connection.Write.{State}
use hottpd.Connection.Output.{send_error, serve_data}

abbrev pub is_unspecified : HttpVersion → Bool
is_unspecified http_unspecified = true
is_unspecified _ = false

abbrev pub end_of_headers : Bytes
end_of_headers = codes "\r\n\r\n"

-- The end of a request that begins the buffer, searched for in what has arrived since `newpos`.
unfoldable pub request_end : ℕ → Bytes → Option ℕ
unfolding find_text_from
request_end newpos buf = find_text_from end_of_headers buf (if leb 3 newpos then newpos - 3 else 0)

-- `keepalive` after the `Connection` header and the limit on requests.
unfoldable pub keeps_alive : ℕ → Connection → Bool
unfolding same_name
keeps_alive keep_alive_max c =
    let asked = get_header (codes "Connection") c.headers in
    let kept =
      if same_name asked (codes "close")
      then false
      else if same_name asked (codes "keep-alive")
      then true
      else c.keepalive in
    if leb keep_alive_max (c.requests_completed + 1) then false else kept

module _ (host : Host) (conf : Config) (hooks : Hooks host.World) where
  abbrev with_conn : State host conf → Connection → State host conf
  with_conn s c = record s { conn = c }

  module _ (check : State host conf → State host conf) where
    abbrev pub fail : ℕ → Bytes → Bool → State host conf → State host conf
    fail = send_error host conf hooks check

    -- From `HandleURI` to the end, for a request with no body.
    unfoldable pub dispatch : State host conf → State host conf
    unfolding handle_uri rfind_char eq_bytes serve_data
    dispatch s =
        let (uri, query) = handle_uri s.conn.uri s.conn.uriquery in
        let named = with_conn s (record (s.conn) { uri = uri; uriquery = query }) in
        let pos : ℕ = elim (rfind_char b'/' uri) [ none ↦ 0 | some p ↦ p + 1 ] in
        let vhost = get_header (codes "Host") s.conn.headers in
        let (handled, t) =
          hooks.on_pre_request named s.conn.method vhost (take pos uri) (drop pos uri) in
        if handled
        then t
        else if not (eq_bytes t.conn.method (codes "GET"))
            && not (eq_bytes t.conn.method (codes "POST"))
        then fail 501 (codes "Not Implemented") true t
        else serve_data host conf hooks check t

    -- From the checks of the headers on; the body length comes from `Content-Length`, if it is set.
    unfoldable pub begin_request : State host conf → State host conf
    unfolding keeps_alive toupper atoi_u32 dispatch
    begin_request s =
        let c = s.conn in
        let method = map toupper c.method in
        let body =
          if is_set (codes "Content-Length") c.headers
          then atoi_u32 (get_header (codes "Content-Length") c.headers)
          else c.request_body_length in
        let t = with_conn s (record c {
          method = method;
          keepalive = keeps_alive conf.keep_alive_max c;
          request_body_length = body;
        }) in
        if is_set (codes "Content-Length") c.headers && ltb conf.max_post_body body
        then fail 413 (codes "Request Entity Too Large") true t
        else if is_set (codes "Transfer-Encoding") c.headers
        then fail 500 (codes "Internal Server Error") true t
        else if body == 0
        then dispatch t
        else if not (eq_bytes method (codes "POST"))
        then fail 500 (codes "Internal Server Error") true t
        else with_conn t (record (t.conn) { state = http_recv_reqbody })

    -- After the loop over the header lines; the request has left the buffer.
    unfoldable pub after_headers : Parsed → Bytes → State host conf → State host conf
    unfolding begin_request
    after_headers (rejected code text c) rest s =
        fail code text false (with_conn s (record c { requestbuf = rest }))
    after_headers (accepted c) rest s =
        let t = with_conn s (record c { requestbuf = rest }) in
        if is_empty c.method || is_empty c.uri || is_unspecified c.http_version
        then fail 400 (codes "Bad Request") false t
        else begin_request t

  unfoldable pub check_request : ℕ → ℕ → State host conf → State host conf
  unfolding request_end crlf_lines header_lines after_headers
  check_request zero newpos s = record s { starved = true }
  check_request (suc fuel) newpos s = elim (request_end newpos s.conn.requestbuf) [
    | none ↦ s
    | some reqend ↦
        after_headers (λ t. check_request fuel 0 t)
          (header_lines (crlf_lines [] s.conn.requestbuf) s.conn)
          (drop (reqend + 4) s.conn.requestbuf) s
  ]

  -- `CheckRequest(0)` as `EndRequest` calls it outside of `CheckRequest`.
  unfoldable pub recheck : State host conf → State host conf
  unfolding check_request
  recheck s = check_request (length s.conn.requestbuf + 1) 0 s
