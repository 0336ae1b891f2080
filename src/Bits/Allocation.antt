-- ===== src/Bits/Allocation.antt =====
-- `dynamicbitmask` (src/hashcomp.cpp) as a set of bits that are allocated.
use hottpd.Base.{
  ℕ, ◌≡◌, ◌≤◌, ◌<◌, inl, inr, refl, sym, ap, ◌∙◌, true, false, ◌&&◌, ◌||◌, Option, none, some, List,
  [], ◌∷◌, ◌++◌, ◌==◌, if◌then◌else◌, length, arith, Bool-cases, Option-cases, All, length-append,
  ==_iff,
}
use hottpd.Bits.{
  Byte, zeros, one_hot, nth, with_bits, Bitfield, DynamicBitmask, at_byte, byte_at, free_position,
  allocate,
}
use hottpd.Bits.Search.{
  IsByte, is_allocated, nth-zeros, nth-one_hot, nth-with_bits, length-with_bits, length-one_hot,
  free_position-finds, free_position-full, byte_at-at_byte, All-at_byte, length-at_byte,
  byte_at-append, byte_at-outside, byte_at-IsByte,
}

-- As many bytes of values as of free bits, of eight bits each, and no more than an `unsigned char`
-- counts.
pub record WellFormed (s : DynamicBitmask) : Type 0 where
  pub same_size : length s.freebits ≡ length s.bits
  pub bytes : All IsByte s.bits
  pub free_bytes : All IsByte s.freebits
  pub small : length s.bits ≤ 255

-- The bit `k` of the byte `i` has been given: it was not allocated, it is now, and the allocation of
-- every other bit is as before, and so are the values.
pub record Grants (s after : DynamicBitmask) (i k : ℕ) : Type 0 where
  pub inside : k < 8
  pub in_size : i < length after.bits
  pub fresh : is_allocated s.freebits i k ≡ false
  pub granted :
      (j l : ℕ)
      → is_allocated after.freebits j l ≡ (is_allocated s.freebits j l || (j == i && l == k))
  pub values : (j l : ℕ) → nth l (byte_at j after.bits) ≡ nth l (byte_at j s.bits)
  pub sound : WellFormed after

with_one-granted :
    (s : DynamicBitmask) (i k : ℕ)
    → i < length s.freebits
    → k < 8
    → All IsByte s.freebits
    → (j l : ℕ)
    → is_allocated (at_byte (λ b. with_bits b (one_hot 8 k)) i s.freebits) j l
      ≡ (is_allocated s.freebits j l || (j == i && l == k))
with_one-granted s i k h small all j l =
    let m : Byte = one_hot 8 k in
    let byte : Byte = byte_at i s.freebits in
    let fits : length m ≡ length byte =
      length-one_hot 8 k ∙ sym (byte_at-IsByte s.freebits i h all) in
    let changed : byte_at j (at_byte (λ b. with_bits b m) i s.freebits)
        ≡ (if j == i then with_bits byte m else byte_at j s.freebits) =
      byte_at-at_byte (λ b. with_bits b m) i j s.freebits h in
    let bit : nth l (with_bits byte m) ≡ (nth l byte || (l == k)) =
      nth-with_bits byte m l fits ∙ ap (λ x. nth l byte || x) (nth-one_hot 8 k l small) in
    ap (λ x. nth l x) changed ∙ elim (Bool-cases (j == i)) [
      | inl e ↦
          let same : nth l byte ≡ is_allocated s.freebits j l =
            ap (λ x. is_allocated s.freebits x l) (sym ((==_iff j i).0 e)) in
          rw e (bit ∙ ap (λ x. x || (l == k)) same)
      | inr e ↦ rw e (ground arith)
    ]

grown-granted :
    (s : DynamicBitmask) (j l : ℕ)
    → is_allocated (s.freebits ++ one_hot 8 0 ∷ []) j l
      ≡ (is_allocated s.freebits j l || (j == length s.freebits && l == 0))
grown-granted s j l =
    ap (λ x. nth l x) (byte_at-append s.freebits (one_hot 8 0) j)
    ∙ elim (Bool-cases (j == length s.freebits)) [
      | inl e ↦
          let beyond : byte_at j s.freebits ≡ [] =
            byte_at-outside s.freebits j (ground (arith, e)) in
          let none_there : is_allocated s.freebits j l ≡ false = ap (λ x. nth l x) beyond in
          rw (e, none_there) (nth-one_hot 8 0 l (omega arith))
      | inr e ↦ rw e (ground arith)
    ]

grown-values :
    (s : DynamicBitmask) (j l : ℕ)
    → nth l (byte_at j (s.bits ++ zeros 8 ∷ [])) ≡ nth l (byte_at j s.bits)
grown-values s j l =
    ap (λ x. nth l x) (byte_at-append s.bits (zeros 8) j) ∙ elim (Bool-cases (j == length s.bits)) [
      | inl e ↦
          rw e
            (nth-zeros 8 l ∙ ap (λ x. nth l x) (sym (byte_at-outside s.bits j (ground (arith, e)))))
      | inr e ↦ rw e refl
    ]

All-append : (xs ys : List Byte) → All IsByte xs → All IsByte ys → All IsByte (xs ++ ys)
All-append [] ys h k = k
All-append (x ∷ xs) ys h k = (h.0, All-append xs ys h.1 k)

with_one-Grants :
    (s : DynamicBitmask) (i k : ℕ)
    → WellFormed s
    → i < length s.freebits
    → k < 8
    → is_allocated s.freebits i k ≡ false
    → Grants s (record s { freebits = at_byte (λ b. with_bits b (one_hot 8 k)) i s.freebits }) i k
with_one-Grants s i k w inside small clear = record {
  inside = small;
  in_size = omega (arith, w.same_size, inside);
  fresh = clear;
  granted = with_one-granted s i k inside small w.free_bytes;
  values = λ j l. refl;
  sound = record {
    same_size = length-at_byte (λ b. with_bits b (one_hot 8 k)) i s.freebits ∙ w.same_size;
    bytes = w.bytes;
    free_bytes =
        All-at_byte (λ b. with_bits b (one_hot 8 k)) i s.freebits
          (λ b. length-with_bits b (one_hot 8 k)) w.free_bytes;
    small = w.small;
  };
}

grown-Grants :
    (s : DynamicBitmask)
    → WellFormed s
    → length s.bits < 255
    → Grants s
        (record { bits = s.bits ++ zeros 8 ∷ []; freebits = s.freebits ++ one_hot 8 0 ∷ [] })
        (length s.bits)
        0
grown-Grants s w room = record {
  inside = omega arith;
  in_size = omega (arith, length-append s.bits (zeros 8 ∷ []));
  fresh =
      ap (λ x. nth 0 x) (byte_at-outside s.freebits (length s.bits) (omega (arith, w.same_size)));
  granted = λ j l.
      grown-granted s j l ∙ ap (λ n. is_allocated s.freebits j l || (j == n && l == 0)) w.same_size;
  values = grown-values s;
  sound = record {
    same_size = omega (
      arith,
      length-append s.bits (zeros 8 ∷ []),
      length-append s.freebits (one_hot 8 0 ∷ []),
      w.same_size,
    );
    bytes = All-append s.bits (zeros 8 ∷ []) w.bytes (refl, tt);
    free_bytes = All-append s.freebits (one_hot 8 0 ∷ []) w.free_bytes (refl, tt);
    small = omega (arith, length-append s.bits (zeros 8 ∷ []), room);
  };
}

-- What a call of `Allocate` is to answer and to leave.
abbrev pub Allocates : DynamicBitmask → Option Bitfield × DynamicBitmask → Type 0
Allocates s (none, after) =
    (after ≡ s) × ((j l : ℕ) → j < 255 → l < 8 → is_allocated s.freebits j l ≡ true)
Allocates s (some (i, m), after) = (k : ℕ) × (m ≡ one_hot 8 k) × Grants s after i k

-- For a well-formed mask: either `Allocate` gives a bit that was not allocated, as its byte and a mask
-- of that one bit; then just that bit is allocated beyond those that were, every value is as before,
-- and the mask is well-formed. Or it throws and changes nothing, and then all 255 * 8 bits that there
-- can be were allocated.
pub allocate-Grants : (s : DynamicBitmask) → WellFormed s → Allocates s (allocate s)
unfolding allocate
allocate-Grants s w = elim (Option-cases (free_position 0 s.freebits)) [
  | inl full ↦ elim (Bool-cases (length s.bits == 255)) [
    | inl e ↦
        rw (allocate, full, e)
          (
            refl,
            λ j l inside small.
                free_position-full 0 s.freebits j l full w.free_bytes
                  (ground (arith, e, w.same_size, inside)) small,
          )
    | inr e ↦ rw (allocate, full, e) (0, refl, grown-Grants s w (ground (arith, e, w.small)))
  ]
  | inr ((i, k), found) ↦
      let (d, is, inside, small, clear) = free_position-finds 0 s.freebits i k found w.free_bytes in
      let same : d ≡ i = omega (arith, is) in
      rw (allocate, found)
        (
          k,
          refl,
          with_one-Grants s i k w (omega (arith, same, inside)) small
              (ap (λ x. is_allocated s.freebits x k) (sym same) ∙ clear),
        )
]
