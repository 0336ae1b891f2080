-- ===== src/Connection/Invariant/Loop.antt =====
-- `CheckRequest` (src/request.cpp) and the connection's invariant.
use mathlib.Core.Bool.{not}
use mathlib.Core.List.{map}
use hottpd.Base.{
  ℕ, zero, suc, ◌+◌, ◌-◌, ◌≤◌, ◌<◌, Bool, true, false, ◌&&◌, ◌||◌, none, some, List, [], ◌∷◌, ◌==◌,
  ◌≡◌, refl, sym, ap, ◌∙◌, leb, ltb, if◌then◌else◌, length, length-drop, drop-nil, take, drop,
  Bytes, codes, is_empty, eq_bytes, toupper, atoi_u32, rfind_char, find_text, find_text_from, arith,
}
use hottpd.Headers.{get_header, is_set}
use hottpd.Uri.{handle_uri}
use hottpd.Connection.{Connection, Config, Host, Hooks}
use hottpd.Connection.Write.{State}
use hottpd.Connection.Parse.{
  Parsed, accepted, rejected, crlf_lines, header_lines, header_line, request_line, then_parse,
}
use hottpd.Connection.Request.{
  is_unspecified, request_end, keeps_alive, dispatch, begin_request, after_headers, check_request,
  recheck, fail,
}
use hottpd.Connection.Invariant.{Inv, Keep, weaken, if-Inv}
use hottpd.Connection.Invariant.Output.{send_error-Inv, serve_data-Inv}

abbrev parsed_conn : Parsed → Connection
parsed_conn (accepted c) = c
parsed_conn (rejected code text c) = c

request_line_lem :
    (line : Bytes) (c : Connection) → (parsed_conn (request_line line c)).quitting ≡ c.quitting
unfolding request_line
request_line_lem line c = ground arith

header_line_lem :
    (line : Bytes) (c : Connection) → (parsed_conn (header_line line c)).quitting ≡ c.quitting
unfolding header_line
header_line_lem line c = ground arith

then_parse_lem :
    (b : Bool) (p : Parsed) (next : Connection → Parsed)
    → (parsed_conn p).quitting ≡ b
    → ((d : Connection) → (parsed_conn (next d)).quitting ≡ d.quitting)
    → (parsed_conn (then_parse p next)).quitting ≡ b
then_parse_lem b (accepted d) next h n = n d ∙ h
then_parse_lem b (rejected _ _ d) next h n = h

header_lines_lem :
    (lines : List Bytes) (c : Connection)
    → (parsed_conn (header_lines lines c)).quitting ≡ c.quitting
unfolding header_lines
header_lines_lem [] c = refl
header_lines_lem (line ∷ lines) c =
    let first : Parsed = if is_empty c.method then request_line line c else header_line line c in
    let first_lem : (parsed_conn first).quitting ≡ c.quitting =
      elim (is_empty c.method)
        as (λ b.
          (parsed_conn (if b then request_line line c else header_line line c)).quitting
          ≡ c.quitting) [ true ↦ request_line_lem line c | false ↦ header_line_lem line c ] in
    elim (is_empty line)
      as (λ b.
        (parsed_conn (if b then accepted c else then_parse first (header_lines lines))).quitting
        ≡ c.quitting) [
          | true ↦ refl
          | false ↦
              then_parse_lem c.quitting first (header_lines lines) first_lem
                (header_lines_lem lines)
        ]

-- A request ends within what is in the buffer.
request_end_lem :
    (newpos : ℕ) (buf : Bytes) (reqend : ℕ)
    → request_end newpos buf ≡ some reqend
    → length (drop (reqend + 4) buf) < length buf
unfolding request_end find_text_from find_text
request_end_lem newpos [] reqend h =
    let nothing : drop {A = ℕ} (if leb 3 newpos then newpos - 3 else 0) [] ≡ [] =
      drop-nil (if leb 3 newpos then newpos - 3 else 0) in
    ground (arith, nothing)
request_end_lem newpos (x ∷ buf) reqend h = omega (arith, length-drop (reqend + 4) (x ∷ buf))

module _ (host : Host) (conf : Config) (hooks : Hooks host.World) (keep : Keep hooks)
    (least bound : ℕ) where
  module _ (check : State host conf → State host conf)
      (checks : (s : State host conf) → Inv least bound s → Inv least bound (check s)) where
    fail-Inv :
        (code : ℕ) (text : Bytes) (fatal : Bool) (s : State host conf)
        → Inv least bound s
        → Inv least bound (fail host conf hooks check code text fatal s)
    fail-Inv code text fatal s i =
        send_error-Inv host conf hooks keep least bound check checks code text fatal s i

    dispatch-Inv :
        (s : State host conf)
        → Inv least bound s
        → Inv least bound (dispatch host conf hooks check s)
    unfolding dispatch
    dispatch-Inv s i =
        let named : State host conf = record s {
          conn = record (s.conn) {
            uri = (handle_uri s.conn.uri s.conn.uriquery).0;
            uriquery = (handle_uri s.conn.uri s.conn.uriquery).1;
          };
        } in
        let pos : ℕ = elim (rfind_char b'/' named.conn.uri) [ none ↦ 0 | some p ↦ p + 1 ] in
        let answer : Bool × State host conf =
          hooks.on_pre_request named s.conn.method (get_header (codes "Host") s.conn.headers)
            (take pos named.conn.uri) (drop pos named.conn.uri) in
        let t : State host conf = answer.1 in
        let t-Inv : Inv least bound t =
          keep.pre_request least bound named s.conn.method
            (get_header (codes "Host") s.conn.headers) (take pos named.conn.uri)
            (drop pos named.conn.uri)
            (record { fed = i.fed; short = i.short; culled = i.culled; kept = i.kept }) in
        let failed : State host conf =
          fail host conf hooks check 501 (codes "Not Implemented") true t in
        if-Inv answer.0 t-Inv (
          if-Inv
            (not (eq_bytes t.conn.method (codes "GET"))
              && not (eq_bytes t.conn.method (codes "POST")))
            (fail-Inv 501 (codes "Not Implemented") true t t-Inv)
            (serve_data-Inv host conf hooks keep least bound check checks t t-Inv))

    begin_request-Inv :
        (s : State host conf)
        → Inv least bound s
        → Inv least bound (begin_request host conf hooks check s)
    unfolding begin_request
    begin_request-Inv s i =
        let c : Connection = s.conn in
        let body : ℕ =
          if is_set (codes "Content-Length") c.headers
          then atoi_u32 (get_header (codes "Content-Length") c.headers)
          else c.request_body_length in
        let method : Bytes = map toupper c.method in
        let t : State host conf = record s {
          conn = record c {
            method = method;
            keepalive = keeps_alive conf.keep_alive_max c;
            request_body_length = body;
          };
        } in
        let t-Inv : Inv least bound t = record {
          fed = i.fed;
          short = i.short;
          culled = i.culled;
          kept = i.kept;
        } in
        if-Inv (is_set (codes "Content-Length") c.headers && ltb conf.max_post_body body)
          (fail-Inv 413 (codes "Request Entity Too Large") true t t-Inv)
          (if-Inv (is_set (codes "Transfer-Encoding") c.headers)
            (fail-Inv 500 (codes "Internal Server Error") true t t-Inv)
            (if-Inv (body == 0) (dispatch-Inv t t-Inv) (
              if-Inv (not (eq_bytes method (codes "POST")))
                (fail-Inv 500 (codes "Internal Server Error") true t t-Inv)
                (record { fed = i.fed; short = i.short; culled = i.culled; kept = i.kept }))))

    after_headers-Inv :
        (p : Parsed) (rest : Bytes) (s : State host conf)
        → length rest ≤ bound
        → (parsed_conn p).quitting ≡ s.conn.quitting
        → s.starved ≡ false
        → s.culls ≡ (if s.conn.quitting then 1 else 0)
        → least ≤ s.culls
        → Inv least bound (after_headers host conf hooks check p rest s)
    unfolding after_headers
    after_headers-Inv (rejected code text c) rest s h q f k l =
        fail-Inv code text false (record s { conn = record c { requestbuf = rest } })
          (record {
            fed = f;
            short = h;
            culled = k ∙ ap (λ b. if b then 1 else 0) (sym q);
            kept = l;
          })
    after_headers-Inv (accepted c) rest s h q f k l =
        let t : State host conf = record s { conn = record c { requestbuf = rest } } in
        let t-Inv : Inv least bound t = record {
          fed = f;
          short = h;
          culled = k ∙ ap (λ b. if b then 1 else 0) (sym q);
          kept = l;
        } in
        if-Inv (is_empty c.method || is_empty c.uri || is_unspecified c.http_version)
          (fail-Inv 400 (codes "Bad Request") false t t-Inv) (begin_request-Inv t t-Inv)

module _ (host : Host) (conf : Config) (hooks : Hooks host.World) (keep : Keep hooks) where
  -- Fuel beyond the length of the request buffer is enough for `CheckRequest`, whose calls from
  -- `EndRequest` come back to it, and the invariant of the connection is kept, if the modules keep
  -- it.
  pub check_request-Inv :
      (fuel newpos least bound : ℕ) (s : State host conf)
      → length s.conn.requestbuf < fuel
      → Inv least bound s
      → Inv least bound (check_request host conf hooks fuel newpos s)
  unfolding check_request
  check_request-Inv zero newpos least bound s h i = absurd (omega arith)
  check_request-Inv (suc fuel) newpos least bound s h i =
      let rest : ℕ → Bytes = λ reqend. drop (reqend + 4) s.conn.requestbuf in
      let parsed : Parsed = header_lines (crlf_lines [] s.conn.requestbuf) s.conn in
      let next : State host conf → State host conf = λ t. check_request host conf hooks fuel 0 t in
      let again : (n : ℕ)
          → n < fuel
          → (t : State host conf) → Inv least n t
          → Inv least n (next t) =
        λ n l t j. check_request-Inv fuel 0 least n t (omega (arith, j.short)) j in
      let run : ℕ → State host conf =
        λ reqend. after_headers host conf hooks next parsed (rest reqend) s in
      let done : (reqend : ℕ)
          → length (rest reqend) < length s.conn.requestbuf
          → Inv least (length (rest reqend)) (run reqend) =
        λ reqend l.
          after_headers-Inv host conf hooks keep least (length (rest reqend)) next
            (again (length (rest reqend)) (omega arith)) parsed (rest reqend) s (omega arith)
            (header_lines_lem (crlf_lines [] s.conn.requestbuf) s.conn) i.fed i.culled i.kept in
      let shorter : (reqend : ℕ)
          → request_end newpos s.conn.requestbuf ≡ some reqend
          → length (rest reqend) < length s.conn.requestbuf =
        λ reqend e. request_end_lem newpos s.conn.requestbuf reqend e in
      elim (request_end newpos s.conn.requestbuf)
          as (λ o.
            request_end newpos s.conn.requestbuf ≡ o
            → Inv least bound (elim o [ none ↦ s | some reqend ↦ run reqend ])) [
              | none ↦ λ e. i
              | some reqend ↦ λ e.
                  weaken least (length (rest reqend)) bound (run reqend)
                    (omega (arith, i.short, shorter reqend e)) (done reqend (shorter reqend e))
            ]
        refl

  pub recheck-Inv :
      (least bound : ℕ) (s : State host conf)
      → Inv least bound s
      → Inv least bound (recheck host conf hooks s)
  unfolding recheck
  recheck-Inv least bound s i =
      check_request-Inv (length s.conn.requestbuf + 1) 0 least bound s (omega arith) i
