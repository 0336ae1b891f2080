-- ===== src/Bits/Search.antt =====
-- The bits of the bytes of `dynamicbitmask` (src/hashcomp.cpp).
use hottpd.Base.{
  ℕ, zero, suc, ◌+◌, ◌≡◌, ◌≤◌, ◌<◌, inl, inr, refl, sym, ap, ◌∙◌, Bool, true, false, ◌&&◌, ◌||◌,
  Option, none, some, List, [], ◌∷◌, ◌++◌, ◌==◌, if◌then◌else◌, length, arith, Option-cases, All,
}
use mathlib.Core.Bool.{not}
use hottpd.Bits.{
  Byte, zeros, one_hot, nth, with_bits, without_bits, at_byte, byte_at, clear_position,
  free_position,
}

pub nth-zeros : (n l : ℕ) → nth l (zeros n) ≡ false
nth-zeros zero l = refl
nth-zeros (suc n) zero = refl
nth-zeros (suc n) (suc l) = nth-zeros n l

pub nth-one_hot : (n k l : ℕ) → k < n → nth l (one_hot n k) ≡ (l == k)
nth-one_hot zero k l h = ground (arith, h)
nth-one_hot (suc n) zero zero h = ground arith
nth-one_hot (suc n) zero (suc l) h = ground (arith, nth-zeros n l)
nth-one_hot (suc n) (suc k) zero h = ground arith
nth-one_hot (suc n) (suc k) (suc l) h = ground (arith, nth-one_hot n k l, h)

pub nth-with_bits :
    (byte m : Byte) (l : ℕ)
    → length m ≡ length byte
    → nth l (with_bits byte m) ≡ (nth l byte || nth l m)
unfolding with_bits
nth-with_bits [] [] l h = refl
nth-with_bits [] (x ∷ m) l h = ground (arith, h)
nth-with_bits (b ∷ byte) [] l h = ground (arith, h)
nth-with_bits (b ∷ byte) (x ∷ m) zero h = refl
nth-with_bits (b ∷ byte) (x ∷ m) (suc l) h = nth-with_bits byte m l (ground (arith, h))

pub nth-without_bits :
    (byte m : Byte) (l : ℕ)
    → length m ≡ length byte
    → nth l (without_bits byte m) ≡ (nth l byte && not (nth l m))
unfolding without_bits
nth-without_bits [] [] l h = refl
nth-without_bits [] (x ∷ m) l h = ground (arith, h)
nth-without_bits (b ∷ byte) [] l h = ground (arith, h)
nth-without_bits (b ∷ byte) (x ∷ m) zero h = refl
nth-without_bits (b ∷ byte) (x ∷ m) (suc l) h = nth-without_bits byte m l (ground (arith, h))

pub length-with_bits : (byte m : Byte) → length (with_bits byte m) ≡ length byte
unfolding with_bits
length-with_bits [] m = refl
length-with_bits (b ∷ byte) [] = refl
length-with_bits (b ∷ byte) (x ∷ m) = ap suc (length-with_bits byte m)

pub length-zeros : (n : ℕ) → length (zeros n) ≡ n
length-zeros zero = refl
length-zeros (suc n) = ap suc (length-zeros n)

pub length-one_hot : (n k : ℕ) → length (one_hot n k) ≡ n
length-one_hot zero k = refl
length-one_hot (suc n) zero = ap suc (length-zeros n)
length-one_hot (suc n) (suc k) = ap suc (length-one_hot n k)

-- What the loops find.
pub clear_position-finds :
    (k : ℕ) (byte : Byte) (p : ℕ)
    → clear_position k byte ≡ some p
    → (d : ℕ) × (p ≡ k + d) × (nth d byte ≡ false) × (d < length byte)
unfolding clear_position
clear_position-finds k [] p h = ground (arith, h)
clear_position-finds k (true ∷ byte) p h =
    let (d, is, clear, inside) = clear_position-finds (k + 1) byte p h in
    (suc d, omega (arith, is), clear, omega (arith, inside))
clear_position-finds k (false ∷ byte) p h = (0, ground (arith, h), refl, omega arith)

pub clear_position-full :
    (k : ℕ) (byte : Byte) (l : ℕ)
    → clear_position k byte ≡ none
    → l < length byte
    → nth l byte ≡ true
unfolding clear_position
clear_position-full k [] l h inside = ground (arith, inside)
clear_position-full k (true ∷ byte) zero h inside = refl
clear_position-full k (true ∷ byte) (suc l) h inside =
    clear_position-full (k + 1) byte l h (omega (arith, inside))
clear_position-full k (false ∷ byte) l h inside = ground (arith, h)

abbrev pub IsByte : Byte → Type 0
IsByte byte = length byte ≡ 8

-- Is this bit allocated?
abbrev pub is_allocated : List Byte → ℕ → ℕ → Bool
is_allocated bytes i k = nth k (byte_at i bytes)

pub free_position-finds :
    (n : ℕ) (bytes : List Byte) (i k : ℕ)
    → free_position n bytes ≡ some (i, k)
    → All IsByte bytes
    → (d : ℕ) × (i ≡ n + d) × (d < length bytes) × (k < 8) × (is_allocated bytes d k ≡ false)
unfolding free_position
free_position-finds n [] i k h all = ground (arith, h)
free_position-finds n (b ∷ bytes) i k h all = elim (Option-cases (clear_position 0 b)) [
  | inl full ↦
      let (d, is, inside, small, clear) =
        free_position-finds (n + 1) bytes i k (rw (free_position, full) at h) all.1 in
      (suc d, omega (arith, is), omega (arith, inside), small, clear)
  | inr (p, found) ↦
      let (d, is, clear, inside) = clear_position-finds 0 b p found in
      let first : Option (ℕ × ℕ) = some (n, p) in
      let asked : Option (ℕ × ℕ) = some (i, k) in
      let same : first ≡ asked = rw (free_position, found) at h in
      let at : n ≡ i = ap {B = ℕ} (λ o. elim o [ none ↦ 0 | some (x, _) ↦ x ]) same in
      let bit : p ≡ k = ap {B = ℕ} (λ o. elim o [ none ↦ 0 | some (_, y) ↦ y ]) same in
      let here : d ≡ k = omega (arith, is, bit) in
      (
        0,
        omega (arith, at),
        omega arith,
        omega (arith, here, inside, all.0),
        ap (λ x. nth x b) (sym here) ∙ clear,
      )
]

pub free_position-full :
    (n : ℕ) (bytes : List Byte) (j l : ℕ)
    → free_position n bytes ≡ none
    → All IsByte bytes
    → j < length bytes
    → l < 8
    → is_allocated bytes j l ≡ true
unfolding free_position
free_position-full n [] j l h all inside small = ground (arith, inside)
free_position-full n (b ∷ bytes) zero l h all inside small =
    elim (Option-cases (clear_position 0 b)) [
      | inl full ↦ clear_position-full 0 b l full (omega (arith, small, all.0))
      | inr (p, found) ↦ ground (arith, found, h)
    ]
free_position-full n (b ∷ bytes) (suc j) l h all inside small =
    elim (Option-cases (clear_position 0 b)) [
      | inl full ↦
          free_position-full (n + 1) bytes j l (rw (free_position, full) at h) all.1
            (omega (arith, inside)) small
      | inr (p, found) ↦ ground (arith, found, h)
    ]

pub byte_at-at_byte :
    (f : Byte → Byte) (i j : ℕ) (bytes : List Byte)
    → i < length bytes
    → byte_at j (at_byte f i bytes) ≡ (if j == i then f (byte_at i bytes) else byte_at j bytes)
unfolding at_byte
byte_at-at_byte f i j [] h = ground (arith, h)
byte_at-at_byte f zero zero (b ∷ bytes) h = refl
byte_at-at_byte f zero (suc j) (b ∷ bytes) h = ground arith
byte_at-at_byte f (suc i) zero (b ∷ bytes) h = ground arith
byte_at-at_byte f (suc i) (suc j) (b ∷ bytes) h = ground (arith, byte_at-at_byte f i j bytes, h)

pub All-at_byte :
    (f : Byte → Byte) (i : ℕ) (bytes : List Byte)
    → ((b : Byte) → length (f b) ≡ length b)
    → All IsByte bytes
    → All IsByte (at_byte f i bytes)
unfolding at_byte
All-at_byte f i [] h all = tt
All-at_byte f zero (b ∷ bytes) h all = (h b ∙ all.0, all.1)
All-at_byte f (suc i) (b ∷ bytes) h all = (all.0, All-at_byte f i bytes h all.1)

pub length-at_byte :
    (f : Byte → Byte) (i : ℕ) (bytes : List Byte) → length (at_byte f i bytes) ≡ length bytes
unfolding at_byte
length-at_byte f i [] = refl
length-at_byte f zero (b ∷ bytes) = refl
length-at_byte f (suc i) (b ∷ bytes) = ap suc (length-at_byte f i bytes)

pub byte_at-append :
    (bytes : List Byte) (b : Byte) (j : ℕ)
    → byte_at j (bytes ++ b ∷ []) ≡ (if j == length bytes then b else byte_at j bytes)
byte_at-append [] b zero = refl
byte_at-append [] b (suc j) = ground arith
byte_at-append (c ∷ bytes) b zero = ground arith
byte_at-append (c ∷ bytes) b (suc j) = ground (arith, byte_at-append bytes b j)

pub byte_at-outside : (bytes : List Byte) (j : ℕ) → length bytes ≤ j → byte_at j bytes ≡ []
byte_at-outside [] j h = refl
byte_at-outside (b ∷ bytes) zero h = ground (arith, h)
byte_at-outside (b ∷ bytes) (suc j) h = byte_at-outside bytes j (omega (arith, h))

pub byte_at-IsByte :
    (bytes : List Byte) (j : ℕ) → j < length bytes → All IsByte bytes → IsByte (byte_at j bytes)
byte_at-IsByte [] j h all = omega (arith, h)
byte_at-IsByte (b ∷ bytes) zero h all = all.0
byte_at-IsByte (b ∷ bytes) (suc j) h all = byte_at-IsByte bytes j (omega (arith, h)) all.1
