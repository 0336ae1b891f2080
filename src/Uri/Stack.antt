-- ===== src/Uri/Stack.antt =====
-- The loop's `sanepath` is the path of a stack of directories.
use hottpd.Base.{
  ℕ, ◌+◌, ◌^◌, ◌≤◌, ◌<◌, ◌≡◌, ◌≢◌, inl, inr, refl, sym, ap, ◌∙◌, true, false, List, [], ◌∷◌, ◌++◌,
  append-nil, append_assoc, ◌==◌, length, Bytes, All, arith, length-append, Bool-cases,
}
use mathlib.Core.List.{tail}
use hottpd.Uri.{State, separate, consume}
use hottpd.Uri.Walk.{segments, render, enter, leaf, resolve, NoSlash}
use hottpd.Uri.Parent.{Plain, parent-render}

-- The stack behind a state of the loop.
pub record Follows (s : State) (stack : List Bytes) : Type 0 where
  pub sane_is : s.sane ≡ render stack
  pub stack_ok : All Plain stack
  pub part_ok : NoSlash s.part

separate-enter :
    (s : State) (stack : List Bytes)
    → Follows s stack
    → length (render stack) < 2 ^ 64
    → (separate true s).sane ≡ render (enter s.part stack)
unfolding separate enter
separate-enter s stack f lt =
    ground
      (arith, parent-render stack f.stack_ok lt, append_assoc (render stack) s.part (b'/' ∷ []))

separate-leaf :
    (s : State) (stack : List Bytes)
    → Follows s stack
    → length (render stack) < 2 ^ 64
    → (separate false s).sane ≡ leaf s.part stack
unfolding separate leaf
separate-leaf s stack f lt =
    ground (arith, parent-render stack f.stack_ok lt, append-nil (s.sane ++ s.part))

tail-Plain : (stack : List Bytes) → All Plain stack → All Plain (tail stack)
tail-Plain [] h = tt
tail-Plain (name ∷ below) h = h.1

cons_ne {ℓ} : {A : Type ℓ} {x : A} {xs : List A} → x ∷ xs ≢ []
cons_ne e = cc

enter-Plain :
    (name : Bytes) (stack : List Bytes)
    → NoSlash name
    → All Plain stack
    → All Plain (enter name stack)
unfolding enter
enter-Plain [] stack p h = h
enter-Plain (x ∷ name) stack p h =
    ground (arith, tail-Plain stack h, λ (e : x ∷ name ≡ []). cons_ne e)

tail-length : (stack : List Bytes) → length (render (tail stack)) ≤ length (render stack)
tail-length [] = omega arith
tail-length (name ∷ below) = omega (arith, length-append (render below) (name ++ b'/' ∷ []))

enter-length :
    (name : Bytes) (stack : List Bytes)
    → length (render (enter name stack)) ≤ length (render stack) + length name + 1
unfolding enter
enter-length name stack = ground (
  arith,
  tail-length stack,
  length-append (render stack) (name ++ b'/' ∷ []),
  length-append name (b'/' ∷ []),
)

-- Undecoded text.
abbrev pub feed : Bytes → State → State
feed [] s = s
feed (c ∷ text) s = feed text (consume c s)

segments-cons :
    (name text : Bytes) → (x : Bytes) × (xs : List Bytes) × (segments name text ≡ x ∷ xs)
unfolding segments
segments-cons name [] = (name, [], refl)
segments-cons name (c ∷ text) = elim (Bool-cases (c == b'/')) [
  | inl e ↦ (name, segments [] text, rw e)
  | inr e ↦ rw e (segments-cons (name ++ c ∷ []) text)
]

resolve-next :
    (stack : List Bytes) (name text : Bytes)
    → resolve stack (name ∷ segments [] text) ≡ resolve (enter name stack) (segments [] text)
unfolding resolve
resolve-next stack name text = let (x, xs, e) = segments-cons [] text in rw e

NoSlash-concat : (name : Bytes) (c : ℕ) → NoSlash name → c ≢ b'/' → NoSlash (name ++ c ∷ [])
NoSlash-concat [] c h n = (n, tt)
NoSlash-concat (x ∷ name) c h n = (h.0, NoSlash-concat name c h.1 n)

consume_slash : (c : ℕ) (s : State) → (c == b'/') ≡ true → consume c s ≡ separate true s
unfolding consume
consume_slash c s e = rw e

consume_plain :
    (c : ℕ) (s : State) → (c == b'/') ≡ false → consume c s ≡ record s { part = s.part ++ c ∷ [] }
unfolding consume
consume_plain c s e = rw e

segments_plain :
    (c : ℕ) (name text : Bytes)
    → (c == b'/') ≡ false
    → segments name (c ∷ text) ≡ segments (name ++ c ∷ []) text
unfolding segments
segments_plain c name text e = rw e

segments_slash :
    (c : ℕ) (name text : Bytes)
    → (c == b'/') ≡ true
    → segments name (c ∷ text) ≡ name ∷ segments [] text
unfolding segments
segments_slash c name text e = rw e

separate-Follows :
    (s : State) (stack : List Bytes)
    → Follows s stack
    → length (render stack) < 2 ^ 64
    → Follows (separate true s) (enter s.part stack)
separate-Follows s stack f lt = record {
  sane_is = separate-enter s stack f lt;
  stack_ok = enter-Plain s.part stack f.part_ok f.stack_ok;
  part_ok = unfold separate in tt;
}

pub feed-resolve :
    (text : Bytes) (s : State) (stack : List Bytes)
    → Follows s stack
    → length (render stack) + length s.part + length text < 2 ^ 64
    → (separate false (feed text s)).sane ≡ resolve stack (segments s.part text)
unfolding separate
feed-resolve [] s stack f lt = unfold resolve segments in separate-leaf s stack f (omega arith)
feed-resolve (c ∷ text) s stack f lt = elim (Bool-cases (c == b'/')) [
  | inl e ↦
      ap (λ q. (separate false (feed text q)).sane) (consume_slash c s e)
      ∙ feed-resolve text (separate true s) (enter s.part stack)
          (separate-Follows s stack f (omega arith)) (omega (arith, enter-length s.part stack))
      ∙ sym (ap (resolve stack) (segments_slash c s.part text e) ∙ resolve-next stack s.part text)
  | inr e ↦
      ap (λ q. (separate false (feed text q)).sane) (consume_plain c s e)
      ∙ feed-resolve text (record s { part = s.part ++ c ∷ [] }) stack
          (record {
            sane_is = f.sane_is;
            stack_ok = f.stack_ok;
            part_ok = NoSlash-concat s.part c f.part_ok (ground arith);
          })
          (omega (arith, length-append s.part (c ∷ [])))
      ∙ sym (ap (resolve stack) (segments_plain c s.part text e))
]
