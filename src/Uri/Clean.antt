-- ===== src/Uri/Clean.antt =====
-- `HandleURI` (src/request.cpp) beside the walk over a stack of directories.
use hottpd.Base.{
  ℕ, ◌^◌, ◌≤◌, ◌<◌, ◌≡◌, ◌≢◌, ◌⊎◌, inl, inr, refl, sym, ◌∙◌, Bool, false, ◌||◌, Option, List, [],
  ◌∷◌, ◌++◌, append-nil, ◌==◌, if◌then◌else◌, ==_ne, length, Bytes, codes, is_empty, eq_bytes,
  eq_bytes_iff, All, arith, length-append, Bool-cases,
}
use mathlib.Core.List.{tail}
use hottpd.Hex.{unhexchar}
use hottpd.Uri.{State, stops, separate, consume, decoded, scan, handle_uri, with_slash}
use hottpd.Uri.Walk.{
  printable, decode, query_of, segments, render, enter, leaf, resolve, NoSlash, IsSegment, IsClean,
}
use hottpd.Uri.Stack.{feed, feed-resolve}
use hottpd.Uri.Query.{scan-query}

-- Decoding as the loop does it.
feed-decoded :
    (a b : ℕ) (text : Bytes) (s : State)
    → feed (printable (unhexchar a b) ++ text) s ≡ feed text (decoded a b s)
unfolding decoded
feed-decoded a b text s = ground (arith)

scan-feed :
    (raw : Bytes) (s : State) → (scan raw s).sane ≡ (separate false (feed (decode raw) s)).sane
unfolding scan decode separate
scan-feed [] s = refl
scan-feed (c ∷ []) s = ground arith
scan-feed (c ∷ a ∷ []) s = ground (arith, scan-feed (a ∷ []) (consume c s))
scan-feed (c ∷ a ∷ b ∷ rest) s = ground (
  arith,
  scan-feed (a ∷ b ∷ rest) (consume c s),
  scan-feed rest (decoded a b s),
  feed-decoded a b (decode rest) s,
)

-- Decoding never makes a text longer.
printable-length : (o : Option ℕ) → length (printable o) ≤ 1
printable-length o = ground arith

length-stopped : (b : Bool) (text : Bytes) → length (if b then [] else text) ≤ length text
length-stopped b text = ground arith

decode-length : (raw : Bytes) → length (decode raw) ≤ length raw
unfolding decode
decode-length [] = omega arith
decode-length (c ∷ []) = ground arith
decode-length (c ∷ a ∷ []) = ground (arith, decode-length (a ∷ []))
decode-length (c ∷ a ∷ b ∷ rest) = elim (Bool-cases (c == b'%')) [
  | inl e ↦ rw e (
      omega (
        arith,
        decode-length rest,
        printable-length (unhexchar a b),
        length-append (printable (unhexchar a b)) (decode rest),
      ))
  | inr e ↦ rw e (
      omega
        (arith, length-stopped (stops c) (c ∷ decode (a ∷ b ∷ rest)), decode-length (a ∷ b ∷ rest)))
]

-- What the walk leaves is clean.
abbrev skipped : Bytes → Bool
skipped name = is_empty name || eq_bytes name (codes ".")

IsSegment-kept :
    (name : Bytes)
    → NoSlash name
    → skipped name ≡ false
    → eq_bytes name (codes "..") ≡ false
    → IsSegment name
IsSegment-kept name h e f = record {
  some_byte = λ n. ground (arith, n);
  no_slash = h;
  not_here = λ n. ground (arith, n, eq_bytes_iff name (codes "."));
  not_parent = λ n. ground (arith, n, eq_bytes_iff name (codes ".."));
}

tail-IsSegment : (stack : List Bytes) → All IsSegment stack → All IsSegment (tail stack)
tail-IsSegment [] h = tt
tail-IsSegment (name ∷ below) h = h.1

enter-IsSegment :
    (name : Bytes) (stack : List Bytes)
    → NoSlash name
    → All IsSegment stack
    → All IsSegment (enter name stack)
unfolding enter
enter-IsSegment name stack h ok = elim (Bool-cases (skipped name)) [
  | inl e ↦ rw e ok
  | inr e ↦ elim (Bool-cases (eq_bytes name (codes ".."))) [
    | inl f ↦ rw (e, f) (tail-IsSegment stack ok)
    | inr f ↦ rw (e, f) (IsSegment-kept name h e f, ok)
  ]
]

IsClean-render : (stack : List Bytes) → All IsSegment stack → IsClean (render stack)
IsClean-render stack ok = record {
  dirs = stack;
  file = [];
  path_is = sym (append-nil (render stack));
  dirs_ok = ok;
  file_ok = inl refl;
}

leaf-IsClean :
    (name : Bytes) (stack : List Bytes)
    → NoSlash name
    → All IsSegment stack
    → IsClean (leaf name stack)
unfolding leaf
leaf-IsClean name stack h ok = elim (Bool-cases (skipped name)) [
  | inl e ↦ rw e (IsClean-render stack ok)
  | inr e ↦ elim (Bool-cases (eq_bytes name (codes ".."))) [
    | inl f ↦ rw (e, f) (IsClean-render (tail stack) (tail-IsSegment stack ok))
    | inr f ↦
        rw (e, f)
          (record {
            dirs = stack;
            file = name;
            path_is = refl;
            dirs_ok = ok;
            file_ok = inr (IsSegment-kept name h e f);
          })
  ]
]

resolve-IsClean :
    (names : List Bytes) (stack : List Bytes)
    → All NoSlash names
    → All IsSegment stack
    → IsClean (resolve stack names)
unfolding resolve
resolve-IsClean [] stack h ok = IsClean-render stack ok
resolve-IsClean (name ∷ []) stack h ok = leaf-IsClean name stack h.0 ok
resolve-IsClean (name ∷ next ∷ more) stack h ok =
    resolve-IsClean (next ∷ more) (enter name stack) h.1 (enter-IsSegment name stack h.0 ok)

NoSlash-concat : (name : Bytes) (c : ℕ) → NoSlash name → c ≢ b'/' → NoSlash (name ++ c ∷ [])
NoSlash-concat [] c h n = (n, tt)
NoSlash-concat (x ∷ name) c h n = (h.0, NoSlash-concat name c h.1 n)

segments-NoSlash : (text name : Bytes) → NoSlash name → All NoSlash (segments name text)
unfolding segments
segments-NoSlash [] name h = (h, tt)
segments-NoSlash (c ∷ text) name h = elim (Bool-cases (c == b'/')) [
  | inl e ↦ rw e (h, segments-NoSlash text [] tt)
  | inr e ↦ rw e (segments-NoSlash text (name ++ c ∷ []) (NoSlash-concat name c h (ground arith)))
]

-- The path that a raw URI names, by the walk.
pub target : Bytes → Bytes
target raw = resolve [] (segments [] (decode raw))

pub target-IsClean : (raw : Bytes) → IsClean (target raw)
unfolding target
target-IsClean raw =
    resolve-IsClean (segments [] (decode raw)) [] (segments-NoSlash (decode raw) [] tt) tt

scan-target :
    (raw : Bytes) (query : Bytes)
    → length raw < 2 ^ 64
    → (scan raw (record { sane = []; part = []; query = query })).sane ≡ target raw
unfolding target
scan-target raw query lt =
    scan-feed raw _
    ∙ feed-resolve (decode raw) (record { sane = []; part = []; query = query }) []
        (record { sane_is = refl; stack_ok = tt; part_ok = tt }) (omega (arith, decode-length raw))

-- A clean path does not begin with a slash.
abbrev Leads : Bytes → Type 0
Leads [] = Unit
Leads (c ∷ rest) = c ≢ b'/'

Leads-append : (a b : Bytes) → Leads a → Leads b → Leads (a ++ b)
Leads-append [] b h k = k
Leads-append (c ∷ a) b h k = h

IsSegment-Leads : (name rest : Bytes) → IsSegment name → Leads (name ++ rest)
IsSegment-Leads [] rest h = absurd (h.some_byte refl)
IsSegment-Leads (c ∷ name) rest h = h.no_slash.0

render-Leads : (dirs : List Bytes) → All IsSegment dirs → Leads (render dirs)
render-Leads [] h = tt
render-Leads (name ∷ below) h =
    Leads-append (render below) (name ++ b'/' ∷ []) (render-Leads below h.1)
      (IsSegment-Leads name (b'/' ∷ []) h.0)

file-Leads : (file : Bytes) → (file ≡ []) ⊎ IsSegment file → Leads file
file-Leads [] h = tt
file-Leads (c ∷ file) (inl e) = cc
file-Leads (c ∷ file) (inr h) = h.no_slash.0

IsClean-Leads : (path : Bytes) → IsClean path → Leads path
IsClean-Leads path clean = rw clean.path_is (
    Leads-append (render clean.dirs) clean.file (render-Leads clean.dirs clean.dirs_ok)
      (file-Leads clean.file clean.file_ok))

with_slash-Leads : (path : Bytes) → Leads path → with_slash path ≡ b'/' ∷ path
unfolding with_slash
with_slash-Leads [] h = refl
with_slash-Leads (c ∷ rest) h = rw (==_ne c b'/' h)

-- For a URI that begins with a slash and is shorter than 2^64 bytes, `HandleURI` gives a slash and
-- the path that the walk over its decoded names leaves, and sets the query to what follows the
-- first question mark outside an escape, if the path ends there.
pub handle_uri-target :
    (raw query : Bytes)
    → length raw < 2 ^ 64
    → handle_uri (b'/' ∷ raw) query ≡ (b'/' ∷ target raw, query_of raw query)
unfolding handle_uri
handle_uri-target raw query lt =
    let start : State = record { sane = []; part = []; query = query } in
    let path = scan-target raw query lt in
    let kept = with_slash-Leads (target raw) (IsClean-Leads (target raw) (target-IsClean raw)) in
    rw (path, kept, scan-query raw start)

-- For a URI that begins with a slash and is shorter than 2^64 bytes, `HandleURI` leaves a slash and
-- a clean path: no name in it is empty, `.` or `..`, or holds a slash, whatever the client encoded.
pub handle_uri-IsClean :
    (raw query : Bytes)
    → length raw < 2 ^ 64
    → (path : Bytes) × ((handle_uri (b'/' ∷ raw) query).0 ≡ b'/' ∷ path) × IsClean path
handle_uri-IsClean raw query lt =
    (target raw, rw (handle_uri-target raw query lt), target-IsClean raw)
