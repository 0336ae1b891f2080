-- ===== src/Base/Text.antt =====
-- Byte strings (`std::string` and C strings without their NUL), and the library calls that the
-- program makes on them.
use Prim.Native.Char.{code}
use Prim.Native.Nat.{ℕ, zero, suc, ◌+◌, ◌-◌}
use Prim.Native.String.{String}
use mathlib.Core.Bool.{Bool, true, false, ◌&&◌}
use mathlib.Core.List.{List, [], ◌∷◌}
use mathlib.Core.Logic.{◌↔◌}
use mathlib.Core.Option
use mathlib.Core.Option.{Option, none, some}
use mathlib.Core.Path.{◌≡◌, refl}
use native.Mathlib.Omega.{arith}
use hottpd.Base.Tests.{◌==◌, leb, if◌then◌else◌}
use hottpd.Base.Lists.{drop}

abbrev pub Bytes : Type 0
Bytes = List ℕ

-- The code points of a literal: its bytes, for ASCII text.
abbrev pub codes : String → Bytes
codes String.[] = []
codes (String.◌∷◌ c s) = code c ∷ codes s

abbrev pub is_empty {ℓ} : {A : Type ℓ} → List A → Bool
is_empty [] = true
is_empty (x ∷ xs) = false

-- `==` of two strings
unfoldable pub eq_bytes : Bytes → Bytes → Bool
eq_bytes [] [] = true
eq_bytes (x ∷ xs) (y ∷ ys) = x == y && eq_bytes xs ys
eq_bytes _ _ = false

pub eq_bytes_iff : (a b : Bytes) → (eq_bytes a b ≡ true) ↔ (a ≡ b)
unfolding eq_bytes
eq_bytes_iff (x ∷ a) (y ∷ b) = ground (arith, eq_bytes_iff a b)
eq_bytes_iff _ _ = ground arith

pub eq_bytes_refl : (a : Bytes) → eq_bytes a a ≡ true
eq_bytes_refl a = (eq_bytes_iff a a).1 refl

-- `tolower` and `toupper` in the C locale
unfoldable pub tolower : ℕ → ℕ
tolower c = if leb b'A' c && leb c b'Z' then c + 32 else c

unfoldable pub toupper : ℕ → ℕ
toupper c = if leb b'a' c && leb c b'z' then c - 32 else c

-- `s.find(c)`
unfoldable pub find_char : ℕ → Bytes → Option ℕ
find_char c [] = none
find_char c (x ∷ xs) = if x == c then some 0 else Option.map suc (find_char c xs)

-- `s.rfind(c, at)`: the last occurrence at an index of at most `at`
unfoldable pub rfind_from : ℕ → Bytes → ℕ → Option ℕ
rfind_from c [] at = none
rfind_from c (x ∷ xs) zero = if x == c then some 0 else none
rfind_from c (x ∷ xs) (suc at) = elim (rfind_from c xs at) [
  | some i ↦ some (suc i)
  | none ↦ if x == c then some 0 else none
]

-- `s.rfind(c)`
unfoldable pub rfind_char : ℕ → Bytes → Option ℕ
rfind_char c [] = none
rfind_char c (x ∷ xs) = elim (rfind_char c xs) [
  | some i ↦ some (suc i)
  | none ↦ if x == c then some 0 else none
]

unfoldable pub starts_with : Bytes → Bytes → Bool
starts_with [] s = true
starts_with (x ∷ xs) [] = false
starts_with (x ∷ xs) (y ∷ ys) = x == y && starts_with xs ys

-- `s.find(t)` from the beginning of `s`
unfoldable pub find_text : Bytes → Bytes → Option ℕ
unfolding starts_with
find_text t [] = if is_empty t then some 0 else none
find_text t (x ∷ xs) = if starts_with t (x ∷ xs) then some 0 else Option.map suc (find_text t xs)

-- `s.find(t, from)`
unfoldable pub find_text_from : Bytes → Bytes → ℕ → Option ℕ
unfolding find_text
find_text_from t s from = Option.map (λ i. from + i) (find_text t (drop from s))
