-- ===== src/Uri/Parent.antt =====
-- `sanepath` after `..`: the backward search finds the slash before the last name.
use hottpd.Base.{
  ℕ, zero, suc, ◌+◌, ◌-◌, ◌%◌, ◌^◌, ◌≤◌, ◌<◌, ◌≡◌, ◌≢◌, refl, sym, none, some, List, [], ◌∷◌, ◌++◌,
  append_assoc, ==_ne, length, take, Bytes, rfind_from, All, arith, length-append, take-append,
}
use mathlib.Core.List.{tail}
use hottpd.Uri.{parent}
use hottpd.Uri.Walk.{render, NoSlash}

-- Searching backwards.
rfind_from-NoSlash :
    (s rest : Bytes) (at : ℕ) → NoSlash s → at < length s → rfind_from b'/' (s ++ rest) at ≡ none
unfolding rfind_from
rfind_from-NoSlash [] rest at h lt = absurd (omega arith)
rfind_from-NoSlash (x ∷ s) rest zero h lt = rw (==_ne x b'/' h.0)
rfind_from-NoSlash (x ∷ s) rest (suc at) h lt =
    rw (rfind_from-NoSlash s rest at h.1 (omega arith)) (rw (==_ne x b'/' h.0))

rfind_from-last :
    (before s rest : Bytes) (at : ℕ)
    → NoSlash s
    → length before ≤ at
    → at ≤ length before + length s
    → rfind_from b'/' (before ++ (b'/' ∷ (s ++ rest))) at ≡ some (length before)
unfolding rfind_from
rfind_from-last [] s rest zero h lo hi = refl
rfind_from-last [] s rest (suc at) h lo hi =
    rw (rfind_from-NoSlash s rest at h (omega arith), rfind_from)
rfind_from-last (x ∷ before) s rest zero h lo hi = absurd (omega arith)
rfind_from-last (x ∷ before) s rest (suc at) h lo hi =
    rw (rfind_from-last before s rest at h (omega arith) (omega arith))

abbrev pub Plain : Bytes → Type 0
Plain name = (name ≢ []) × NoSlash name

length-nonempty : (s : Bytes) → s ≢ [] → 0 < length s
length-nonempty [] h = absurd (h refl)
length-nonempty (x ∷ s) h = omega arith

before_last : (n : ℕ) → 2 ≤ n → n < 2 ^ 64 → (n + (2 ^ 64 - 2)) % 2 ^ 64 ≡ n - 2
before_last n lo hi = omega arith

take-suc-length :
    (before rest : Bytes) (c : ℕ)
    → take (length before + 1) (before ++ (c ∷ rest)) ≡ before ++ c ∷ []
take-suc-length before rest c =
    let e : length before + 1 ≡ length (before ++ c ∷ []) =
      omega (arith, length-append before (c ∷ [])) in
    let split : before ++ (c ∷ rest) ≡ (before ++ c ∷ []) ++ rest =
      sym (append_assoc before (c ∷ []) rest) in
    rw (e, split) (take-append (before ++ c ∷ []) rest)

parent-below :
    (before name : Bytes)
    → Plain name
    → length (before ++ (b'/' ∷ (name ++ b'/' ∷ []))) < 2 ^ 64
    → parent (before ++ (b'/' ∷ (name ++ b'/' ∷ []))) ≡ before ++ b'/' ∷ []
unfolding parent
parent-below before name (ne, h) lt =
    let path = before ++ (b'/' ∷ (name ++ b'/' ∷ [])) in
    let n : length path ≡ length before + length name + 2 =
      omega (
        arith,
        length-append before (b'/' ∷ (name ++ b'/' ∷ [])),
        length-append name (b'/' ∷ []),
      ) in
    let pos = length-nonempty name ne in
    let at = before_last (length path) (omega arith) lt in
    let found : rfind_from b'/' path ((length path + (2 ^ 64 - 2)) % 2 ^ 64)
        ≡ some (length before) =
      rw at
        (rfind_from-last before name (b'/' ∷ []) (length path - 2) h (omega arith) (omega arith)) in
    rw (found, parent) (take-suc-length before _ b'/')

parent-top :
    (name : Bytes)
    → Plain name
    → length (name ++ b'/' ∷ []) < 2 ^ 64
    → parent (name ++ b'/' ∷ []) ≡ []
unfolding parent
parent-top name (ne, h) lt =
    let path = name ++ b'/' ∷ [] in
    let n : length path ≡ length name + 1 = omega (arith, length-append name (b'/' ∷ [])) in
    let pos = length-nonempty name ne in
    let at = before_last (length path) (omega arith) lt in
    let found : rfind_from b'/' path ((length path + (2 ^ 64 - 2)) % 2 ^ 64) ≡ none =
      rw at (rfind_from-NoSlash name (b'/' ∷ []) (length path - 2) h (omega arith)) in
    rw (found, parent)

-- `..` takes the innermost directory off.
pub parent-render :
    (stack : List Bytes)
    → All Plain stack
    → length (render stack) < 2 ^ 64
    → parent (render stack) ≡ render (tail stack)
parent-render [] h lt = unfold parent rfind_from in refl
parent-render (name ∷ []) h lt = parent-top name h.0 lt
parent-render (name ∷ dir ∷ below) h lt =
    let e : render (name ∷ dir ∷ below) ≡ (render below ++ dir) ++ (b'/' ∷ (name ++ b'/' ∷ [])) =
      simp append_assoc in
    let lt' = rw e at lt in
    rw e (
      rw (parent-below (render below ++ dir) name h.0 lt')
        (append_assoc (render below) dir (b'/' ∷ [])))
