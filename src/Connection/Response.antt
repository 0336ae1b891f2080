-- ===== src/Connection/Response.antt =====
-- src/request.cpp and src/connections.cpp: the header lines that `SendHeaders` adds to its
-- caller's, and the page of `SendError`.
use mathlib.Core.Bool.{not}
use hottpd.Base.{
  ℕ, ◌+◌, Bool, true, false, ◌&&◌, none, some, [], ◌++◌, ◌==◌, if◌then◌else◌, drop, Bytes, codes,
  is_empty, decimal, rfind_char,
}
use hottpd.Headers.{
  Headers, same_name, set_header, get_header, is_set, create_header, remove_header,
}
use hottpd.Mime.{get_type}
use hottpd.Connection.{HttpVersion, http_1_0, Config, Host}

unfoldable pub connection_header : Bool → Headers → Bool × Headers
connection_header keepalive hs =
    if same_name (get_header (codes "Connection") hs) (codes "Close")
    then (false, hs)
    else if keepalive
    then (true, set_header (codes "Connection") (codes "Keep-Alive") hs)
    else (false, set_header (codes "Connection") (codes "Close") hs)

abbrev pub version_text : HttpVersion → Bytes
version_text http_1_0 = codes "HTTP/1.0 "
version_text _ = codes "HTTP/1.1 "

unfoldable pub error_page : Bytes → Bytes
error_page text =
    codes "<html><head></head><body>"
    ++ text
    ++ codes "<br><small>Powered by Hottpd</small></body></html>"

module _ (host : Host) (conf : Config) where
  -- The headers that `SendHeaders` adds to those of its caller, and the new `keepalive`.
  unfoldable pub content_type : ℕ → Bytes → Headers → Headers
  unfolding rfind_char get_type
  content_type size uri hs =
      let mime : Bytes = elim (rfind_char b'.' uri) [
        | none ↦ []
        | some p ↦ get_type (drop (p + 1) uri) conf.mime_types
      ] in
      if not (size == 0) && not (is_set (codes "Content-Type") hs)
      then set_header (codes "Content-Type")
          (if is_empty mime then codes "application/x-octet-stream" else mime) hs
      else if size == 0
      then remove_header (codes "Content-Type") hs
      else hs

  unfoldable pub response_headers : ℕ → Bytes → Headers → Headers
  unfolding content_type decimal
  response_headers size uri hs = content_type size uri (
      set_header (codes "Content-Length") (decimal size) (
        create_header (codes "Server") (codes "hottpd")
          (create_header (codes "Date") (host.date conf.stat_config.now) hs)))
