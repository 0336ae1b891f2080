-- ===== src/Docroot.antt =====
-- What a request can reach below the document root: `HandleURI` (src/request.cpp) gives the path
-- that `CheckFilePath` (src/filesystem.cpp) then climbs, as `CheckRequest` calls them one after the
-- other.
mod Tests
use hottpd.Base.{
  ℕ, Bool, ◌≡◌, ◌≢◌, ◌⊎◌, ◌<◌, ◌^◌, inl, inr, refl, sym, ◌∙◌, ap, Bool-cases, [], ◌∷◌, ◌++◌, ◌==◌,
  List, Bytes, length, All, arith, append_assoc, append-nil, if◌then◌else◌, true, codes, ==_ne,
  ==_iff, ==_refl,
}
use hottpd.Uri.{handle_uri}
use hottpd.Uri.Walk.{segments, render, IsSegment, IsClean, NoSlash}
use hottpd.Uri.Clean.{handle_uri-IsClean}
use hottpd.Files.{
  StatAnswer, StatConfig, PathAnswer, serve, without_slash, Fs, check_file_path, StatBuf,
}
use hottpd.Files.Path.{Sound, Boundary, check_file_path-Sound}

-- A name between slashes that does not leave its directory.
abbrev pub Inside : Bytes → Type 0
Inside name = (name ≡ []) ⊎ IsSegment name

segments-NoSlash : (name text : Bytes) → NoSlash text → segments name text ≡ (name ++ text) ∷ []
unfolding segments
segments-NoSlash name [] h = ap (λ x. x ∷ []) (sym (append-nil name))
segments-NoSlash name (c ∷ text) h = rw (==_ne c b'/' h.0) (
    segments-NoSlash (name ++ c ∷ []) text h.1 ∙ ap (λ x. x ∷ []) (append_assoc name (c ∷ []) text))

-- The names of a text are those before a slash of it and those after it.
segments-split :
    (P : Bytes → Type 0) (name xs ys : Bytes)
    → All P (segments name xs)
    → All P (segments [] ys)
    → All P (segments name (xs ++ b'/' ∷ ys))
unfolding segments
segments-split P name [] ys h k = (h.0, k)
segments-split P name (c ∷ xs) ys h k = elim (Bool-cases (c == b'/')) [
  | inl e ↦ rw e ((rw e at h).0, segments-split P [] xs ys ((rw e at h).1) k)
  | inr e ↦ rw e (segments-split P (name ++ c ∷ []) xs ys (rw e at h) k)
]

segments-before :
    (P : Bytes → Type 0) (name xs ys : Bytes)
    → Boundary ys
    → All P (segments name (xs ++ ys))
    → All P (segments name xs)
unfolding segments
segments-before P name [] [] b h = h
segments-before P name [] (c ∷ ys) b h = let g = rw (ap (λ x. x == b'/') b) at h in (g.0, tt)
segments-before P name (c ∷ xs) ys b h = elim (Bool-cases (c == b'/')) [
  | inl e ↦ rw e ((rw e at h).0, segments-before P [] xs ys b ((rw e at h).1))
  | inr e ↦ rw e (segments-before P (name ++ c ∷ []) xs ys b (rw e at h))
]

file-NoSlash : (file : Bytes) → Inside file → NoSlash file
file-NoSlash [] h = tt
file-NoSlash (c ∷ file) (inl e) = cc
file-NoSlash (c ∷ file) (inr h) = h.no_slash

render-Inside :
    (dirs : List Bytes) (file : Bytes)
    → All IsSegment dirs
    → Inside file
    → All Inside (segments [] (render dirs ++ file))
render-Inside [] file h k = rw (segments-NoSlash [] file (file-NoSlash file k)) (k, tt)
render-Inside (name ∷ below) file h k =
    let onward : All Inside (segments [] ((render below ++ name) ++ b'/' ∷ file)) =
      segments-split Inside [] (render below ++ name) file (render-Inside below name h.1 (inr h.0))
        (rw (segments-NoSlash [] file (file-NoSlash file k)) (k, tt)) in
    let same : (render below ++ name) ++ b'/' ∷ file
        ≡ (render below ++ (name ++ b'/' ∷ [])) ++ file =
      append_assoc (render below) name (b'/' ∷ file)
      ∙ ap (λ x. render below ++ x) (sym (append_assoc name (b'/' ∷ []) file))
      ∙ sym (append_assoc (render below) (name ++ b'/' ∷ []) file) in
    rw same at onward

module _ {World : Type 0} (ask : World → Bool → Bytes → StatAnswer × World)
    (conf : StatConfig) where
  -- For a raw URI that begins with a slash and is shorter than 2^64 bytes: whatever path
  -- `CheckFilePath` serves for what `HandleURI` makes of it is the document root, less a slash at its
  -- end, a slash, and a text in which each name between slashes is empty, or is not empty and neither `.`
  -- nor `..` (that is, no name leads out of its directory).
  pub served-Inside :
      (root raw query : Bytes) (fs : Fs ask) (path : Bytes) (st : StatBuf)
      → length raw < 2 ^ 64
      → (check_file_path ask conf root (handle_uri (b'/' ∷ raw) query).0 fs).0 ≡ serve path st
      → (below : Bytes) × (path ≡ (without_slash root ++ b'/' ∷ []) ++ below)
        × All Inside (segments [] below)
  served-Inside root raw query fs path st short served =
      let (clean, made, is) = handle_uri-IsClean raw query short in
      let found : Sound ask conf fs (without_slash root ++ b'/' ∷ []) clean
          (check_file_path ask conf root (b'/' ∷ clean) fs).0 =
        check_file_path-Sound ask conf fs root b'/' clean in
      let same : (check_file_path ask conf root (b'/' ∷ clean) fs).0 ≡ serve path st =
        ap (λ x. (check_file_path ask conf root x fs).0) (sym made) ∙ served in
      let (pre, post, split, named, bound, saw) : Sound ask conf fs
          (without_slash root ++ b'/' ∷ []) clean (serve path st) =
        rw same at found in
      let all : All Inside (segments [] clean) =
        rw is.path_is (render-Inside is.dirs is.file is.dirs_ok is.file_ok) in
      (pre, named, segments-before Inside [] pre post bound (rw split at all))
