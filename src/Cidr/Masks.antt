-- ===== src/Cidr/Masks.antt =====
-- Bits under a mask, and the first bits of a text of bits (src/cidr.cpp).
use hottpd.Base.{
  ℕ, zero, suc, ◌+◌, ◌≡◌, ◌↔◌, ◌≤◌, ◌<◌, refl, sym, ap, ◌∙◌, Bool, true, false, ◌&&◌, List, [], ◌∷◌,
  ◌++◌, length, take, arith,
}
use hottpd.Cidr.{Byte, inverted_bits, masked, same_bit, same_byte}

-- The bits of an address, the first of them the highest.
abbrev pub bits_of : List Byte → List Bool
bits_of [] = []
bits_of (b ∷ bytes) = b ++ bits_of bytes

abbrev pub IsByte : Byte → Type 0
IsByte b = length b ≡ 8

pub ones : ℕ → ℕ → Byte
ones m zero = []
ones zero (suc n) = false ∷ ones zero n
ones (suc m) (suc n) = true ∷ ones m n

pub inverted_bits-ones : (m : ℕ) → m < 8 → inverted_bits m ≡ ones m 8
unfolding inverted_bits ones
inverted_bits-ones zero h = refl
inverted_bits-ones (suc zero) h = refl
inverted_bits-ones (suc (suc zero)) h = refl
inverted_bits-ones (suc (suc (suc zero))) h = refl
inverted_bits-ones (suc (suc (suc (suc zero)))) h = refl
inverted_bits-ones (suc (suc (suc (suc (suc zero))))) h = refl
inverted_bits-ones (suc (suc (suc (suc (suc (suc zero)))))) h = refl
inverted_bits-ones (suc (suc (suc (suc (suc (suc (suc zero))))))) h = refl
inverted_bits-ones (suc (suc (suc (suc (suc (suc (suc (suc n)))))))) h = absurd (omega (arith, h))

pub cons_iff :
    (x y : Bool) (a b : Byte) (P : Type 0)
    → (P ↔ (a ≡ b))
    → (same_bit x y ≡ true) × P ↔ (x ∷ a ≡ y ∷ b)
cons_iff true true a b P e = (
  λ h. ap (λ l. true ∷ l) (e.0 h.1),
  λ h. (refl, e.1 (ap (λ l. elim l [ [] ↦ [] | _ ∷ r ↦ r ]) h)),
)
cons_iff false false a b P e = (
  λ h. ap (λ l. false ∷ l) (e.0 h.1),
  λ h. (refl, e.1 (ap (λ l. elim l [ [] ↦ [] | _ ∷ r ↦ r ]) h)),
)
cons_iff true false a b P e = (λ h. ground (arith, h.0), λ h. ground (arith, h))
cons_iff false true a b P e = (λ h. ground (arith, h.0), λ h. ground (arith, h))

pub and_iff : (p q : Bool) → ((p && q) ≡ true) ↔ ((p ≡ true) × (q ≡ true))
and_iff true q = (λ h. (refl, h), λ h. h.1)
and_iff false q = (λ h. ground (arith, h), λ h. h.0)

pub same_byte_iff : (a b : Byte) → (same_byte a b ≡ true) ↔ (a ≡ b)
unfolding same_byte
same_byte_iff [] [] = (λ h. refl, λ h. refl)
same_byte_iff [] (y ∷ b) = (λ h. ground (arith, h), λ h. ground (arith, h))
same_byte_iff (x ∷ a) [] = (λ h. ground (arith, h), λ h. ground (arith, h))
same_byte_iff (x ∷ a) (y ∷ b) =
    let heads = cons_iff x y a b (same_byte a b ≡ true) (same_byte_iff a b) in
    let both = and_iff (same_bit x y) (same_byte a b) in
    (λ h. heads.0 (both.0 h), λ h. both.1 (heads.1 h))

pub off : (x y : Bool) → same_bit (x && false) (y && false) ≡ true
off true true = refl
off true false = refl
off false true = refl
off false false = refl

pub on : (x y : Bool) → same_bit (x && true) (y && true) ≡ same_bit x y
on true true = refl
on true false = refl
on false true = refl
on false false = refl

-- Comparing under the mask is comparing the first bits.
pub masked_iff :
    (n m : ℕ) (a b : Byte)
    → length a ≡ n
    → length b ≡ n
    → (same_byte (masked a (ones m n)) (masked b (ones m n)) ≡ true) ↔ (take m a ≡ take m b)
unfolding same_byte ones
masked_iff zero m [] [] h k = (λ e. refl, λ e. refl)
masked_iff zero m (x ∷ a) b h k = absurd (omega (arith, h))
masked_iff zero m [] (y ∷ b) h k = absurd (omega (arith, k))
masked_iff (suc n) m [] b h k = absurd (omega (arith, h))
masked_iff (suc n) m (x ∷ a) [] h k = absurd (omega (arith, k))
masked_iff (suc n) zero (x ∷ a) (y ∷ b) h k =
    let rest = (masked_iff n zero a b (omega (arith, h)) (omega (arith, k))).1 refl in
    (λ e. refl, λ e. rw (off x y, rest) refl)
masked_iff (suc n) (suc m) (x ∷ a) (y ∷ b) h k =
    let rest : Bool = same_byte (masked a (ones m n)) (masked b (ones m n)) in
    let heads =
      cons_iff x y (take m a) (take m b) (rest ≡ true)
        (masked_iff n m a b (omega (arith, h)) (omega (arith, k))) in
    let both = and_iff (same_bit x y) rest in
    let opened : (same_bit (x && true) (y && true) && rest) ≡ (same_bit x y && rest) =
      ap (λ z. z && rest) (on x y) in
    (λ e. heads.0 (both.0 (sym opened ∙ e)), λ e. opened ∙ both.1 (heads.1 e))

-- A whole byte, and then more bits.
pub first : Bool → List Bool → Bool
first d [] = d
first d (x ∷ xs) = x

pub others : List Bool → List Bool
others [] = []
others (x ∷ xs) = xs

pub take_iff :
    (n k t : ℕ) (a b : Byte) (xs ys : List Bool)
    → t ≡ n + k
    → length a ≡ n
    → length b ≡ n
    → ((a ≡ b) × (take k xs ≡ take k ys)) ↔ (take t (a ++ xs) ≡ take t (b ++ ys))
unfolding first others
take_iff zero k t [] [] xs ys e h g =
    let same : t ≡ k = omega (arith, e) in rw same (λ u. u.1, λ u. (refl, u))
take_iff zero k t (x ∷ a) b xs ys e h g = absurd (omega (arith, h))
take_iff zero k t [] (y ∷ b) xs ys e h g = absurd (omega (arith, g))
take_iff (suc n) k t [] b xs ys e h g = absurd (omega (arith, h))
take_iff (suc n) k t (x ∷ a) [] xs ys e h g = absurd (omega (arith, g))
take_iff (suc n) k zero (x ∷ a) (y ∷ b) xs ys e h g = absurd (omega (arith, e))
take_iff (suc n) k (suc t) (x ∷ a) (y ∷ b) xs ys e h g =
    let (onward, back) =
      take_iff n k t a b xs ys (omega (arith, e)) (omega (arith, h)) (omega (arith, g)) in
    (
      λ u.
          let head : x ≡ y = ap (λ l. first x l) u.0 in
          let rest : take t (a ++ xs) ≡ take t (b ++ ys) = onward (ap (λ l. others l) u.0, u.1) in
          ap (λ z. z ∷ take t (a ++ xs)) head ∙ ap (λ l. y ∷ l) rest,
      λ u.
          let head : x ≡ y = ap (λ l. first x l) u in
          let (same, more) = back (ap (λ l. others l) u) in
          (ap (λ z. z ∷ a) head ∙ ap (λ l. y ∷ l) same, more),
    )

pub take-within : (n : ℕ) (a xs : List Bool) → n ≤ length a → take n (a ++ xs) ≡ take n a
take-within zero a xs h = refl
take-within (suc n) [] xs h = absurd (omega (arith, h))
take-within (suc n) (x ∷ a) xs h = ap (λ l. x ∷ l) (take-within n a xs (omega (arith, h)))
