-- ===== src/Uri.antt =====
-- src/request.cpp: `Connection::HandleURI`, which decodes and cleans the path of a request.
-- The loop over `uri.begin() + 1 …` is `scan`, by recursion on what is left of the text; an
-- iterator set to `uri.end() - 1` before `continue` ends the text in the next round.
pub mod Walk
mod Parent
mod Stack
mod Query
pub mod Clean
pub mod Tests
use hottpd.Base.{
  ℕ, ◌+◌, ◌-◌, ◌%◌, ◌^◌, Bool, true, false, ◌||◌, Option, none, some, List, [], ◌∷◌, ◌++◌, ltb, leb,
  ◌==◌, if◌then◌else◌, length, take, Bytes, codes, is_empty, eq_bytes, rfind_from,
}
use hottpd.Hex.{unhexchar}

-- The local variables `sanepath` and `pathpart`, and the member `uriquery`.
pub record State : Type 0 where
  pub sane : Bytes
  pub part : Bytes
  pub query : Bytes

-- `sanepath` after `..`: what stands before the last component. The length is a `size_t`.
unfoldable pub parent : Bytes → Bytes
unfolding rfind_from
parent sane = elim (rfind_from b'/' sane ((length sane + (2 ^ 64 - 2)) % 2 ^ 64)) [
  | none ↦ []
  | some sloc ↦ take (sloc + 1) sane
]

-- A separator, or the end of the URI; the flag is `c != 0`.
unfoldable pub separate : Bool → State → State
unfolding parent eq_bytes
separate more s =
    let sane =
      if is_empty s.part || eq_bytes s.part (codes ".")
      then s.sane
      else if eq_bytes s.part (codes "..")
      then parent s.sane
      else s.sane ++ s.part ++ (if more then b'/' ∷ [] else []) in
    record s { sane = sane; part = [] }

-- A byte that is no percent sign and does not end the path.
unfoldable pub consume : ℕ → State → State
unfolding separate
consume c s = if c == b'/' then separate true s else record s { part = s.part ++ c ∷ [] }

-- `%ab`. The decoded value is a signed `char`: from 128 on it is below 32.
unfoldable pub decoded : ℕ → ℕ → State → State
unfolding consume unhexchar
decoded a b s = elim (unhexchar a b) [
  | none ↦ s
  | some v ↦ if ltb v 32 || leb 128 v || v == 127 then s else consume v s
]

-- A NUL byte, a query or a fragment ends the path.
abbrev pub stops : ℕ → Bool
stops c = c == 0 || c == b'?' || c == b'#'

abbrev pub with_query : ℕ → Bytes → State → State
with_query c rest s = if c == b'?' then record s { query = rest } else s

unfoldable pub scan : Bytes → State → State
unfolding decoded
scan [] s = separate false s
scan (c ∷ a ∷ b ∷ rest) s =
    let escaped = scan rest (decoded a b s) in
    let plain = scan (a ∷ b ∷ rest) (consume c s) in
    if c == b'%'
    then escaped
    else if stops c
    then separate false (with_query c (a ∷ b ∷ rest) s)
    else plain
scan (c ∷ rest) s =
    let plain = scan rest (consume c s) in
    if c == b'%'
    then separate false s
    else if stops c
    then separate false (with_query c rest s)
    else plain

-- `uri.push_back('/')` where the cleaned path has none at its front
with_slash : Bytes → Bytes
with_slash [] = b'/' ∷ []
with_slash (x ∷ xs) = if x == b'/' then x ∷ xs else b'/' ∷ x ∷ xs

-- The new `uri` and `uriquery`. A URI that does not begin with a slash is left as it is.
unfoldable pub handle_uri : Bytes → Bytes → Bytes × Bytes
unfolding scan with_slash
handle_uri [] query = ([], query)
handle_uri (c ∷ rest) query =
    let s = scan rest (record { sane = []; part = []; query = query }) in
    if c == b'/' then (with_slash s.sane, s.query) else (c ∷ rest, query)
