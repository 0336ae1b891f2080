-- ===== src/Cidr/Prefix.antt =====
-- `MatchCIDRBits` (src/cidr.cpp) compares a beginning of the two addresses.
use hottpd.Base.{
  ℕ, zero, suc, ◌+◌, ◌*◌, ◌/◌, ◌%◌, ◌≡◌, ◌↔◌, ◌≤◌, ◌<◌, refl, sym, ap, ◌∙◌, Bool, true, false, ◌&&◌,
  List, [], ◌∷◌, ◌++◌, ◌==◌, if◌then◌else◌, length, take, All, arith,
}
use mathlib.Core.Bool.{not}
use hottpd.Cidr.{
  Byte, inverted_bits, masked, same_byte, byte_at, same_bytes, match_parts, match_cidr_bits,
}
use hottpd.Cidr.Masks.{
  inverted_bits-ones, bits_of, IsByte, ones, and_iff, same_byte_iff, masked_iff, take_iff,
  take-within,
}

-- The comparison of the odd bits, where there are any.
odd_bits : ℕ → Byte → Byte → Bool
odd_bits modulus a b = not (
    not (modulus == 0)
    && not (same_byte (masked a (inverted_bits modulus)) (masked b (inverted_bits modulus))))

not_other : (m : ℕ) (x : Bool) → not (not (suc m == 0) && not x) ≡ x
not_other m true = ground arith
not_other m false = ground arith

odd_bits_iff :
    (m : ℕ) (a b : Byte)
    → m < 8
    → IsByte a
    → IsByte b
    → (odd_bits m a b ≡ true) ↔ (take m a ≡ take m b)
unfolding odd_bits
odd_bits_iff zero a b h ka kb = (λ e. refl, λ e. ground arith)
odd_bits_iff (suc m) a b h ka kb =
    let (onward, back) = masked_iff 8 (suc m) a b ka kb in
    let table : inverted_bits (suc m) ≡ ones (suc m) 8 = inverted_bits-ones (suc m) h in
    let plain : odd_bits (suc m) a b
        ≡ same_byte (masked a (ones (suc m) 8)) (masked b (ones (suc m) 8)) =
      not_other m (same_byte (masked a (inverted_bits (suc m))) (masked b (inverted_bits (suc m))))
      ∙ ap (λ t. same_byte (masked a t) (masked b t)) table in
    (λ o. onward (sym plain ∙ o), λ o. plain ∙ back o)

if_not : (c x : Bool) → (if c then false else x) ≡ (not c && x)
if_not true x = refl
if_not false x = refl

parts_iff :
    (d m : ℕ) (address mask : List Byte)
    → (match_parts d m address mask ≡ true) ↔ (
        (odd_bits m (byte_at d address) (byte_at d mask) ≡ true)
        × (same_bytes d address mask ≡ true))
unfolding match_parts odd_bits
parts_iff d m address mask =
    let odd : Bool =
      not (m == 0)
      && not (
          same_byte (masked (byte_at d address) (inverted_bits m))
            (masked (byte_at d mask) (inverted_bits m))) in
    let both = and_iff (not odd) (same_bytes d address mask) in
    (
      λ u. both.0 (sym (if_not odd (same_bytes d address mask)) ∙ u),
      λ u. if_not odd (same_bytes d address mask) ∙ both.1 u,
    )

next_iff :
    (d m : ℕ) (a b : Byte) (address mask : List Byte)
    → (match_parts (suc d) m (a ∷ address) (b ∷ mask) ≡ true)
      ↔ ((a ≡ b) × (match_parts d m address mask ≡ true))
unfolding same_bytes
next_iff d m a b address mask =
    let whole = parts_iff (suc d) m (a ∷ address) (b ∷ mask) in
    let part = parts_iff d m address mask in
    let both = and_iff (same_byte a b) (same_bytes d address mask) in
    let byte = same_byte_iff a b in
    (
      λ u. (byte.0 (both.0 (whole.0 u).1).0, part.1 ((whole.0 u).0, (both.0 (whole.0 u).1).1)),
      λ u. whole.1 ((part.0 u.1).0, both.1 (byte.1 u.0, (part.0 u.1).1)),
    )

match_parts_iff :
    (d m n : ℕ) (address mask : List Byte)
    → n ≡ 8 * d + m
    → m < 8
    → n ≤ 8 * length address
    → length address ≡ length mask
    → All IsByte address
    → All IsByte mask
    → (match_parts d m address mask ≡ true) ↔ (take n (bits_of address) ≡ take n (bits_of mask))
unfolding match_parts same_bytes
match_parts_iff zero m n [] [] e h fits same ka kb =
    let nothing : m ≡ 0 = omega (arith, e, fits) in (λ u. refl, λ u. ground (arith, nothing))
match_parts_iff zero m n (a ∷ address) (b ∷ mask) e h fits same ka kb =
    let parts = parts_iff zero m (a ∷ address) (b ∷ mask) in
    let odd = odd_bits_iff m a b h ka.0 kb.0 in
    let all : m ≡ n = omega (arith, e) in
    let left : take n (a ++ bits_of address) ≡ take m a =
      ap (λ x. take x (a ++ bits_of address)) (sym all)
      ∙ take-within m a (bits_of address) (omega (arith, h, ka.0)) in
    let right : take n (b ++ bits_of mask) ≡ take m b =
      ap (λ x. take x (b ++ bits_of mask)) (sym all)
      ∙ take-within m b (bits_of mask) (omega (arith, h, kb.0)) in
    (λ u. left ∙ odd.0 (parts.0 u).0 ∙ sym right, λ u. parts.1 (odd.1 (sym left ∙ u ∙ right), refl))
match_parts_iff zero m n [] (b ∷ mask) e h fits same ka kb = absurd (omega (arith, same))
match_parts_iff zero m n (a ∷ address) [] e h fits same ka kb = absurd (omega (arith, same))
match_parts_iff (suc d) m n [] mask e h fits same ka kb = absurd (omega (arith, e, fits))
match_parts_iff (suc d) m n (a ∷ address) [] e h fits same ka kb = absurd (omega (arith, same))
match_parts_iff (suc d) m n (a ∷ address) (b ∷ mask) e h fits same ka kb =
    let step = next_iff d m a b address mask in
    let more =
      match_parts_iff d m (8 * d + m) address mask refl h (omega (arith, e, fits))
        (omega (arith, same)) ka.1 kb.1 in
    let glue =
      take_iff 8 (8 * d + m) n a b (bits_of address) (bits_of mask) (omega (arith, e)) ka.0 kb.0 in
    (
      λ u. glue.0 ((step.0 u).0, more.0 (step.0 u).1),
      λ u. step.1 ((glue.1 u).0, more.1 (glue.1 u).1),
    )

-- For two addresses of the same number of bytes, and no more bits than they have: `MatchCIDRBits`
-- answers true just if the addresses begin with the same bits, so many of them.
pub match_cidr_bits_iff :
    (address mask : List Byte) (mask_bits : ℕ)
    → All IsByte address
    → All IsByte mask
    → length address ≡ length mask
    → mask_bits ≤ 8 * length address
    → (match_cidr_bits address mask mask_bits ≡ true)
      ↔ (take mask_bits (bits_of address) ≡ take mask_bits (bits_of mask))
unfolding match_cidr_bits
match_cidr_bits_iff address mask n ka kb same fits =
    match_parts_iff (n / 8) (n % 8) n address mask (omega arith) (omega arith) fits same ka kb
