-- ===== src/Hex.antt =====
-- src/hashcomp.cpp: `utils::unhexchar` and its table. Bytes are 0 to 255; the source's `char` is
-- signed, so a byte from 128 on fails its first test as a number above 102 does here.
pub mod Tests
use hottpd.Base.{
  ℕ, ◌+◌, ◌-◌, ◌*◌, ◌/◌, ◌%◌, ◌<◌, ◌≡◌, refl, ap, ◌∙◌, Bool, true, false, ◌&&◌, ◌||◌, Option, none,
  some, List, [], ◌∷◌, All, arith, length, ltb, leb, if◌then◌else◌,
}

-- An entry of the table is -1 or a digit; the entry -1 is the number 255, and sums are taken
-- modulo 256, as the assignment to a `char` takes them.
abbrev minus_one : ℕ
minus_one = 255

abbrev hex_lookup : ℕ → ℕ
hex_lookup i =
    if leb i 9
    then i
    else if leb 17 i && leb i 22
    then i - 7
    else if leb 49 i && leb i 54
    then i - 39
    else minus_one

unfoldable pub unhexchar : ℕ → ℕ → Option ℕ
unhexchar a b =
    if ltb b 48 || ltb 102 b || ltb a 48 || ltb 102 a
    then none
    else some ((hex_lookup (a - 48) * 16 + hex_lookup (b - 48)) % 256)

-- The digit of `utils::hex`
abbrev hex_digit : ℕ → ℕ
hex_digit d = if ltb d 10 then b'0' + d else b'a' + (d - 10)

-- The loop of `utils::hex`
unfoldable pub hex_digits : List ℕ → List ℕ
hex_digits [] = []
hex_digits (b ∷ raw) = hex_digit (b / 16) ∷ hex_digit (b % 16) ∷ hex_digits raw

-- `utils::hex`; `none` where it would write beyond `hexbuf`, which has MAXBUF bytes.
unfoldable pub hex : ℕ → List ℕ → Option (List ℕ)
unfolding hex_digits
hex max_buf [] = some []
hex max_buf (b ∷ raw) =
    if ltb (2 * length (b ∷ raw)) max_buf then some (hex_digits (b ∷ raw)) else none

-- The bytes that pairs of digits stand for, as `unhexchar` reads each pair.
unfoldable pub unhex : List ℕ → List ℕ
unfolding unhexchar
unhex [] = []
unhex (a ∷ []) = []
unhex (a ∷ b ∷ rest) =
    let more = unhex rest in elim (unhexchar a b) [ none ↦ more | some v ↦ v ∷ more ]

unhexchar-digits :
    (h l : ℕ) → h < 16 → l < 16 → unhexchar (hex_digit h) (hex_digit l) ≡ some (h * 16 + l)
unfolding unhexchar
unhexchar-digits h l p q = ground arith

unhex-pair :
    (a b v : ℕ) (rest : List ℕ) → unhexchar a b ≡ some v → unhex (a ∷ b ∷ rest) ≡ v ∷ unhex rest
unfolding unhex
unhex-pair a b v rest h = rw (unhex, h) refl

unhex-hex_digits : (raw : List ℕ) → All (λ b. b < 256) raw → unhex (hex_digits raw) ≡ raw
unfolding unhex hex_digits
unhex-hex_digits [] h = refl
unhex-hex_digits (b ∷ raw) h =
    let whole : b / 16 * 16 + b % 16 ≡ b = omega arith in
    let pair : unhexchar (hex_digit (b / 16)) (hex_digit (b % 16)) ≡ some b =
      unhexchar-digits (b / 16) (b % 16) (omega (arith, h.0)) (omega arith) ∙ ap some whole in
    unhex-pair (hex_digit (b / 16)) (hex_digit (b % 16)) b (hex_digits raw) pair
    ∙ ap (◌∷◌ b) (unhex-hex_digits raw h.1)

-- For bytes whose digits are fewer than MAXBUF, `hex` stays in its buffer, and `unhexchar` reads back
-- every pair of digits that it writes.
pub unhex-hex :
    (max_buf : ℕ) (raw : List ℕ)
    → All (λ b. b < 256) raw
    → 2 * length raw < max_buf
    → (text : List ℕ) × (hex max_buf raw ≡ some text) × (unhex text ≡ raw)
unfolding hex hex_digits unhex
unhex-hex max_buf [] h fits = ([], refl, refl)
unhex-hex max_buf (b ∷ raw) h fits =
    (hex_digits (b ∷ raw), ground (arith, fits), unhex-hex_digits (b ∷ raw) h)
