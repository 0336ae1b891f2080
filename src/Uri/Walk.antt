-- ===== src/Uri/Walk.antt =====
-- What cleaning a path means, with no cursor and no search in it: decode the text, split it at
-- its slashes, and walk the names over a stack of directories.
use mathlib.Core.List.{tail}
use hottpd.Base.{
  ℕ, ◌≡◌, ◌≢◌, ◌⊎◌, ◌||◌, Option, none, some, List, [], ◌∷◌, ◌++◌, ltb, leb, ◌==◌, if◌then◌else◌,
  Bytes, codes, is_empty, eq_bytes, All,
}
use hottpd.Hex.{unhexchar}
use hottpd.Uri.{stops}

-- The byte that `%ab` stands for, unless it is invalid or unprintable.
abbrev pub printable : Option ℕ → Bytes
printable none = []
printable (some v) = if ltb v 32 || leb 128 v || v == 127 then [] else v ∷ []

-- The decoded path, up to a query, a fragment, a NUL byte or a cut escape.
unfoldable pub decode : Bytes → Bytes
decode [] = []
decode (c ∷ a ∷ b ∷ rest) =
    let escaped = printable (unhexchar a b) ++ decode rest in
    let plain = c ∷ decode (a ∷ b ∷ rest) in
    if c == b'%' then escaped else if stops c then [] else plain
decode (c ∷ rest) =
    let plain = c ∷ decode rest in if c == b'%' then [] else if stops c then [] else plain

-- What follows the question mark that ends the path, or else the query that was there before.
unfoldable pub query_of : Bytes → Bytes → Bytes
query_of [] query = query
query_of (c ∷ a ∷ b ∷ rest) query =
    let escaped = query_of rest query in
    let plain = query_of (a ∷ b ∷ rest) query in
    if c == b'%'
    then escaped
    else if stops c
    then if c == b'?' then a ∷ b ∷ rest else query
    else plain
query_of (c ∷ rest) query =
    let plain = query_of rest query in
    if c == b'%' then query else if stops c then if c == b'?' then rest else query else plain

-- The names between the slashes of a text, the first of them with `name` before it.
unfoldable pub segments : Bytes → Bytes → List Bytes
segments name [] = name ∷ []
segments name (c ∷ text) =
    let inside = segments (name ++ c ∷ []) text in
    let onward = name ∷ segments [] text in if c == b'/' then onward else inside

-- Directories, the innermost first, as a path.
abbrev pub render : List Bytes → Bytes
render [] = []
render (name ∷ below) = render below ++ (name ++ b'/' ∷ [])

unfoldable pub enter : Bytes → List Bytes → List Bytes
enter name stack =
    if is_empty name || eq_bytes name (codes ".")
    then stack
    else if eq_bytes name (codes "..")
    then tail stack
    else name ∷ stack

unfoldable pub leaf : Bytes → List Bytes → Bytes
leaf name stack =
    if is_empty name || eq_bytes name (codes ".")
    then render stack
    else if eq_bytes name (codes "..")
    then render (tail stack)
    else render stack ++ name

unfoldable pub resolve : List Bytes → List Bytes → Bytes
unfolding enter leaf
resolve stack [] = render stack
resolve stack (name ∷ []) = leaf name stack
resolve stack (name ∷ next ∷ more) = resolve (enter name stack) (next ∷ more)

-- A name that stays inside its directory.
abbrev pub NoSlash : Bytes → Type 0
NoSlash name = All (λ c. c ≢ b'/') name

pub record IsSegment (name : Bytes) : Type 0 where
  pub some_byte : name ≢ []
  pub no_slash : NoSlash name
  pub not_here : name ≢ codes "."
  pub not_parent : name ≢ codes ".."

-- A path of such names, with or without a slash at its end.
pub record IsClean (path : Bytes) : Type 0 where
  pub dirs : List Bytes
  pub file : Bytes
  pub path_is : path ≡ render dirs ++ file
  pub dirs_ok : All IsSegment dirs
  pub file_ok : (file ≡ []) ⊎ IsSegment file
