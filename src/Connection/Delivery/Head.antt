-- ===== src/Connection/Delivery/Head.antt =====
-- The head of the answer that serves a file: `SendHeaders` (src/request.cpp).
use hottpd.Base.{
  ℕ, ◌≡◌, ◌<◌, refl, ap, ◌∙◌, Bool, true, false, Option, none, some, [], ◌++◌, ◌==◌, ◌&&◌,
  if◌then◌else◌, append_assoc, Bytes, codes, decimal, arith, Bool-cases, inl, inr,
}
use mathlib.Core.Bool.{not}
use hottpd.Headers.{
  Headers, same_name, set_header, find, formatted, is_set, get_header, create_header, remove_header,
}
use hottpd.Headers.Laws.{find-set_header, find-remove_header}
use hottpd.Connection.{http_send_headers, Config, Host, Hooks, request_write, bounds_check_fd}
use hottpd.Connection.Write.{State, write}
use hottpd.Connection.Output.{send_headers, end_request}
use hottpd.Connection.Response.{content_type, response_headers, connection_header, version_text}

abbrev pub length_name : Bytes
length_name = codes "Content-Length"

apart_type : same_name length_name (codes "Content-Type") ≡ false
unfolding same_name
apart_type = refl

apart_connection : same_name length_name (codes "Connection") ≡ false
unfolding same_name
apart_connection = refl

same_length : same_name length_name length_name ≡ true
unfolding same_name
same_length = refl

-- A header that another name does not change.
passes-set :
    (name value : Bytes) (hs : Headers)
    → same_name length_name name ≡ false
    → find length_name (set_header name value hs) ≡ find length_name hs
passes-set name value hs apart =
    find-set_header length_name name value hs
    ∙ ap (λ b. if b then some value else find length_name hs) apart

passes-remove :
    (name : Bytes) (hs : Headers)
    → same_name length_name name ≡ false
    → find length_name (remove_header name hs) ≡ find length_name hs
passes-remove name hs apart =
    find-remove_header length_name name hs ∙ ap (λ b. if b then none else find length_name hs) apart

connection_header-length :
    (keepalive : Bool) (hs : Headers)
    → find length_name (connection_header keepalive hs).1 ≡ find length_name hs
unfolding connection_header
connection_header-length keepalive hs =
    elim (Bool-cases (same_name (get_header (codes "Connection") hs) (codes "Close"))) [
      | inl e ↦ rw (connection_header, e) refl
      | inr e ↦ elim (Bool-cases keepalive) [
        | inl k ↦
            rw (connection_header, e, k)
              (passes-set (codes "Connection") (codes "Keep-Alive") hs apart_connection)
        | inr k ↦
            rw (connection_header, e, k)
              (passes-set (codes "Connection") (codes "Close") hs apart_connection)
      ]
    ]

one_of_three :
    {old : Option Bytes} (x y z : Headers) (b c : Bool)
    → find length_name x ≡ old
    → find length_name y ≡ old
    → find length_name z ≡ old
    → find length_name (if b then x else if c then y else z) ≡ old
one_of_three x y z true c p q r = p
one_of_three x y z false true p q r = q
one_of_three x y z false false p q r = r

module _ (host : Host) (conf : Config) where
  content_type-length :
      (size : ℕ) (uri : Bytes) (hs : Headers)
      → find length_name (content_type host conf size uri hs) ≡ find length_name hs
  unfolding content_type
  content_type-length size uri hs =
      one_of_three _ _ _ (not (size == 0) && not (is_set (codes "Content-Type") hs)) (size == 0)
        (passes-set (codes "Content-Type") _ hs apart_type)
        (passes-remove (codes "Content-Type") hs apart_type) refl

  -- The length is in the head.
  response_headers-length :
      (size : ℕ) (uri : Bytes) (hs : Headers)
      → find length_name (response_headers host conf size uri hs) ≡ some (decimal size)
  unfolding response_headers
  response_headers-length size uri hs =
      let fixed : Headers =
        create_header (codes "Server") (codes "hottpd")
          (create_header (codes "Date") (host.date conf.stat_config.now) hs) in
      content_type-length size uri (set_header length_name (decimal size) fixed)
      ∙ find-set_header length_name length_name (decimal size) fixed
      ∙ ap (λ b. if b then some (decimal size) else find length_name fixed) same_length

  -- What `SendHeaders` writes.
  abbrev pub head : ℕ → Bytes → Headers → State host conf → Bytes
  head response rtext hs s =
      version_text s.conn.http_version
      ++ ((decimal response ++ codes " " ++ rtext ++ codes "\r\n")
          ++ (formatted hs ++ codes "\r\n"))

  abbrev queued : Bytes → State host conf → State host conf
  queued text s = record s {
    conn = record (s.conn) { sendq = s.conn.sendq ++ text };
    want_write = true;
  }

  write-queues :
      (text : Bytes) (s : State host conf)
      → bounds_check_fd conf.max_descriptors s.conn.socket ≡ true
      → write host conf text s ≡ queued text s
  unfolding write request_write
  write-queues text s e = rw (write, e) refl

  abbrev kept : Bool → State host conf → State host conf
  kept keepalive s = record s { conn = record (s.conn) { keepalive = keepalive } }

  abbrev begun : State host conf → State host conf
  begun s = record s { conn = record (s.conn) { state = http_send_headers } }

  module _ (hooks : Hooks host.World) (check : State host conf → State host conf) where
    abbrev pub headed : Bool → Bytes → State host conf → State host conf
    headed keepalive text s = record s {
      conn = record (s.conn) {
        state = http_send_headers;
        sendq = s.conn.sendq ++ text;
        keepalive = keepalive;
      };
      want_write = true;
    }

    written :
        (version status lines : Bytes) (k : Bool) (s : State host conf)
        → bounds_check_fd conf.max_descriptors s.conn.socket ≡ true
        → write host conf (codes "\r\n") (
            write host conf lines
              (kept k (write host conf status (write host conf version (begun s)))))
          ≡ headed k (version ++ (status ++ (lines ++ codes "\r\n"))) s
    written version status lines k s real =
        let a : State host conf = queued version (begun s) in
        let b : State host conf = queued status a in
        let c : State host conf = queued lines (kept k b) in
        let crlf : Bytes = codes "\r\n" in
        let q : Bytes = s.conn.sendq in
        ap (λ x. write host conf crlf (write host conf lines (kept k (write host conf status x))))
          (write-queues version (begun s) real)
        ∙ ap (λ x. write host conf crlf (write host conf lines (kept k x)))
            (write-queues status a real)
        ∙ ap (λ x. write host conf crlf x) (write-queues lines (kept k b) real)
        ∙ write-queues crlf c real
        ∙ ap (λ l. headed k l (record s { conn = record (s.conn) { sendq = [] } }))
            (append_assoc ((q ++ version) ++ status) lines crlf
              ∙ append_assoc (q ++ version) status (lines ++ crlf)
              ∙ append_assoc q version (status ++ (lines ++ crlf)))

    pub send_headers-head :
        (size response : ℕ) (rtext : Bytes) (rheaders : Headers) (s : State host conf)
        → 0 < size
        → bounds_check_fd conf.max_descriptors s.conn.socket ≡ true
        → (hs : Headers) × (keepalive : Bool) × (find length_name hs ≡ some (decimal size))
          × (send_headers host conf hooks check size response rtext rheaders s
              ≡ headed keepalive (head response rtext hs s) s)
    unfolding send_headers
    send_headers-head size response rtext rheaders s some_size real =
        let nonzero : (size == 0) ≡ false = ground (arith, some_size) in
        let added : Headers = response_headers host conf size s.conn.uri rheaders in
        let (keepalive, hs) = connection_header s.conn.keepalive added in
        let status : Bytes = decimal response ++ codes " " ++ rtext ++ codes "\r\n" in
        let all : State host conf = write host conf (codes "\r\n") (
          write host conf (formatted hs) (
            kept keepalive (
              write host conf status
                (write host conf (version_text s.conn.http_version) (begun s))))) in
        (
          hs,
          keepalive,
          connection_header-length s.conn.keepalive added
              ∙ response_headers-length size s.conn.uri rheaders,
          ap (λ b. if b then end_request host conf hooks check all else all) nonzero
              ∙ written (version_text s.conn.http_version) status (formatted hs) keepalive s real,
        )
