-- ===== src/Base/Numbers.antt =====
-- Numbers in text: `ConvToStr`, and `atoi` as glibc has it, its result read as an unsigned int.
use Prim.Native.Nat.{ℕ, zero, suc, ◌+◌, ◌-◌, ◌*◌, ◌/◌, ◌%◌, ◌^◌, ◌≤◌, ◌<◌, min}
use mathlib.Core.Bool.{Bool, true, false, ◌&&◌, ◌||◌}
use mathlib.Core.List.{[], ◌∷◌, ◌++◌, append_assoc, append-nil}
use mathlib.Core.Logic.{inl, inr}
use mathlib.Core.Path.{◌≡◌, refl, ap, sym, ◌∙◌}
use native.Mathlib.Omega.{arith}
use hottpd.Base.Tests.{ltb, leb, ◌==◌, if◌then◌else◌, Bool-cases}
use hottpd.Base.Text.{Bytes, codes}

decimal_digits : ℕ → ℕ → Bytes
decimal_digits zero n = []
decimal_digits (suc fuel) n =
    let front = decimal_digits fuel (n / 10) in
    if ltb n 10 then (b'0' + n) ∷ [] else front ++ (b'0' + n % 10) ∷ []

-- A number has no more digits than its value plus one.
unfoldable pub decimal : ℕ → Bytes
unfolding decimal_digits
decimal n = decimal_digits (n + 1) n

abbrev is_space : ℕ → Bool
is_space c = c == b' ' || leb 9 c && leb c 13

abbrev is_digit : ℕ → Bool
is_digit c = leb b'0' c && leb c b'9'

skip_spaces : Bytes → Bytes
skip_spaces [] = []
skip_spaces (c ∷ s) = if is_space c then skip_spaces s else c ∷ s

read_digits : ℕ → Bytes → ℕ
read_digits acc [] = acc
read_digits acc (c ∷ s) =
    let more = read_digits (acc * 10 + (c - b'0')) s in if is_digit c then more else acc

-- `strtol` stays within a long; the conversion to int and then to unsigned int drops the high bits.
signed_u32 : Bytes → ℕ
signed_u32 [] = 0
signed_u32 (c ∷ s) =
    if c == b'-'
    then (2 ^ 64 - min (read_digits 0 s) (2 ^ 63)) % 2 ^ 32
    else min (read_digits 0 (if c == b'+' then s else c ∷ s)) (2 ^ 63 - 1) % 2 ^ 32

unfoldable pub atoi_u32 : Bytes → ℕ
unfolding skip_spaces read_digits signed_u32
atoi_u32 s = signed_u32 (skip_spaces s)

decimal_runs : decimal 5120 ≡ codes "5120"
unfolding decimal
decimal_runs = refl

atoi_runs : atoi_u32 (codes " 42x") ≡ 42
unfolding atoi_u32
atoi_runs = refl

atoi_negative : atoi_u32 (codes "-1") ≡ 2 ^ 32 - 1
unfolding atoi_u32
atoi_negative = refl

-- `atoi` reads what `ConvToStr` writes.
read_digit :
    (acc d : ℕ) (s : Bytes)
    → d < 10
    → read_digits acc ((b'0' + d) ∷ s) ≡ read_digits (acc * 10 + d) s
unfolding read_digits
read_digit acc d s h =
    let digit : (leb b'0' (b'0' + d) && leb (b'0' + d) b'9') ≡ true = ground (arith, h) in
    rw (digit) (ap (λ k. read_digits k s) (omega arith))

read_digits-decimal_digits :
    (f n : ℕ) (rest : Bytes)
    → n < f
    → read_digits 0 (decimal_digits f n ++ rest) ≡ read_digits n rest
unfolding decimal_digits
read_digits-decimal_digits zero n rest h = absurd (omega (arith, h))
read_digits-decimal_digits (suc f) n rest h = elim (Bool-cases (ltb n 10)) [
  | inl e ↦
      rw e (read_digit 0 n rest (ground (arith, e)) ∙ ap (λ k. read_digits k rest) (omega arith))
  | inr e ↦ rw e (
      ap (λ l. read_digits 0 l)
        (append_assoc (decimal_digits f (n / 10)) ((b'0' + n % 10) ∷ []) rest)
      ∙ read_digits-decimal_digits f (n / 10) ((b'0' + n % 10) ∷ rest) (ground (arith, e, h))
      ∙ read_digit (n / 10) (n % 10) rest (omega arith)
      ∙ ap (λ k. read_digits k rest) (omega arith))
]

decimal_digits-first :
    (f n : ℕ)
    → n < f
    → (c : ℕ) × (s : Bytes) × (decimal_digits f n ≡ c ∷ s) × (b'0' ≤ c) × (c ≤ b'9')
unfolding decimal_digits
decimal_digits-first zero n h = absurd (omega (arith, h))
decimal_digits-first (suc f) n h = elim (Bool-cases (ltb n 10)) [
  | inl e ↦ (b'0' + n, [], rw e refl, omega arith, ground (arith, e))
  | inr e ↦
      let (c, s, front, low, high) = decimal_digits-first f (n / 10) (ground (arith, e, h)) in
      (c, s ++ (b'0' + n % 10) ∷ [], rw (e, front) refl, low, high)
]

signed_u32-digit :
    (c : ℕ) (s : Bytes)
    → b'0' ≤ c
    → signed_u32 (skip_spaces (c ∷ s)) ≡ min (read_digits 0 (c ∷ s)) (2 ^ 63 - 1) % 2 ^ 32
unfolding skip_spaces signed_u32
signed_u32-digit c s low =
    let not_space : (c == b' ' || leb 9 c && leb c 13) ≡ false = ground (arith, low) in
    let not_minus : (c == b'-') ≡ false = ground (arith, low) in
    let not_plus : (c == b'+') ≡ false = ground (arith, low) in
    rw (not_space) (rw (not_minus, not_plus) refl)

pub atoi_u32-decimal : (n : ℕ) → n < 2 ^ 32 → atoi_u32 (decimal n) ≡ n
unfolding atoi_u32 decimal
atoi_u32-decimal n h =
    let (c, s, text, low, high) = decimal_digits-first (n + 1) n (omega arith) in
    let value : read_digits 0 (c ∷ s) ≡ n =
      ap (λ l. read_digits 0 l) (sym text ∙ sym (append-nil (decimal_digits (n + 1) n)))
      ∙ read_digits-decimal_digits (n + 1) n [] (omega arith) in
    rw text
      (signed_u32-digit c s low ∙ ap (λ k. min k (2 ^ 63 - 1) % 2 ^ 32) value ∙ omega (arith, h))

-- An `int` that may be negative.
pub data ℤ : Type 0 where
  pos negsuc : ℕ → ℤ

unfoldable pub increment : ℤ → ℤ
increment (pos n) = pos (suc n)
increment (negsuc zero) = pos 0
increment (negsuc (suc n)) = negsuc n

unfoldable pub decrement : ℤ → ℤ
decrement (pos zero) = negsuc 0
decrement (pos (suc n)) = pos n
decrement (negsuc n) = negsuc (suc n)

pub decrement-increment : (z : ℤ) → decrement (increment z) ≡ z
unfolding increment decrement
decrement-increment (pos n) = refl
decrement-increment (negsuc zero) = refl
decrement-increment (negsuc (suc n)) = refl

unfoldable pub is_positive : ℤ → Bool
is_positive (pos zero) = false
is_positive (pos (suc n)) = true
is_positive (negsuc n) = false
