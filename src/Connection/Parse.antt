-- ===== src/Connection/Parse.antt =====
-- The header lines of a request: the first loop of `Connection::CheckRequest` in src/request.cpp.
use mathlib.Core.List.{map}
use hottpd.Base.{
  ℕ, ◌+◌, ◌-◌, Bool, false, ◌&&◌, ◌||◌, none, some, List, [], ◌∷◌, ◌++◌, ◌==◌, leb, if◌then◌else◌,
  length, take, drop, Bytes, codes, is_empty, eq_bytes, find_char, toupper,
}
use hottpd.Headers.{set_header}
use hottpd.Connection.{Connection, http_1_0, http_1_1}

-- The lines that end in CR LF. What follows the last of them is no line.
unfoldable pub crlf_lines : Bytes → Bytes → List Bytes
crlf_lines line [] = []
crlf_lines line (c ∷ []) = []
crlf_lines line (c ∷ d ∷ rest) =
    let ended = line ∷ crlf_lines [] rest in
    let longer = crlf_lines (line ++ c ∷ []) (d ∷ rest) in
    if c == 13 && d == 10 then ended else longer

-- White space, as `operator>>` skips it.
abbrev is_space : ℕ → Bool
is_space c = c == b' ' || leb 9 c && leb c 13

skip_spaces : Bytes → Bytes
skip_spaces [] = []
skip_spaces (c ∷ s) = if is_space c then skip_spaces s else c ∷ s

-- A word and what follows it.
word : Bytes → Bytes → Bytes × Bytes
word acc [] = (acc, [])
word acc (c ∷ s) = let more = word (acc ++ c ∷ []) s in if is_space c then (acc, c ∷ s) else more

-- `stream >> value`: a value that cannot be read stays as it was.
unfoldable pub read_word : Bytes → Bytes → Bytes × Bytes
unfolding word skip_spaces
read_word value s =
    let (read, rest) = word [] (skip_spaces s) in (if is_empty read then value else read, rest)

pub data Parsed : Type 0 where
  accepted : Connection → Parsed
  rejected : ℕ → Bytes → Connection → Parsed

abbrev pub bad_request : Connection → Parsed
bad_request = rejected 400 (codes "Bad Request")

-- `METHOD URI VERSION`
unfoldable pub request_line : Bytes → Connection → Parsed
unfolding read_word toupper eq_bytes
request_line line c =
    let (method, after_method) = read_word c.method line in
    let (uri, after_uri) = read_word c.uri after_method in
    let (version, _) = read_word [] after_uri in
    let named = record c { method = method; uri = uri } in
    let upper = map toupper version in
    if is_empty method || is_empty uri || is_empty version
    then bad_request named
    else if eq_bytes upper (codes "HTTP/1.1")
    then accepted (record named { http_version = http_1_1 })
    else if eq_bytes upper (codes "HTTP/1.0")
    then accepted (record named {
      http_version = http_1_0;
      keepalive = if c.requests_completed == 0 then false else c.keepalive;
    })
    else rejected 505 (codes "Version Not Supported") named

-- `Name: value`
unfoldable pub header_line : Bytes → Connection → Parsed
unfolding find_char
header_line line c = elim (find_char b':' line) [
  | none ↦ bad_request c
  | some sep ↦
      if sep == 0 || sep == length line - 1
      then bad_request c
      else accepted
          (record c { headers = set_header (take sep line) (drop (sep + 2) line) c.headers })
]

abbrev pub then_parse : Parsed → (Connection → Parsed) → Parsed
then_parse (accepted c) next = next c
then_parse (rejected code text c) next = rejected code text c

-- The loop, up to an empty line.
unfoldable pub header_lines : List Bytes → Connection → Parsed
unfolding request_line header_line
header_lines [] c = accepted c
header_lines (line ∷ lines) c =
    if is_empty line
    then accepted c
    else then_parse (if is_empty c.method then request_line line c else header_line line c)
        (header_lines lines)
