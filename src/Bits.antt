-- ===== src/Bits.antt =====
-- src/hashcomp.cpp and include/hashcomp.h: `dynamicbitmask`. An `unsigned char` is its eight bits,
-- the lowest first, since it is only read and changed bit by bit; the free bits, which the source
-- keeps in a derived class and `GetFreeBits` gives, are of one object.
pub mod Search
pub mod Allocation
mod Tests
use hottpd.Base.{
  ℕ, zero, suc, ◌+◌, Bool, true, false, ◌&&◌, ◌||◌, Option, none, some, List, [], ◌∷◌, ◌++◌, ◌==◌,
  ltb, if◌then◌else◌, length, get_elem?,
}
use mathlib.Core.Bool.{not}

abbrev pub Byte : Type 0
Byte = List Bool

abbrev pub zeros : ℕ → Byte
zeros zero = []
zeros (suc n) = false ∷ zeros n

-- `1 << k`, in so many bits
abbrev pub one_hot : ℕ → ℕ → Byte
one_hot zero k = []
one_hot (suc n) zero = true ∷ zeros n
one_hot (suc n) (suc k) = false ∷ one_hot n k

abbrev pub nth : ℕ → Byte → Bool
nth k [] = false
nth zero (b ∷ byte) = b
nth (suc k) (b ∷ byte) = nth k byte

-- `a | b`
unfoldable pub with_bits : Byte → Byte → Byte
with_bits [] m = []
with_bits (b ∷ byte) [] = b ∷ byte
with_bits (b ∷ byte) (x ∷ m) = (b || x) ∷ with_bits byte m

-- `a & ~b`
unfoldable pub without_bits : Byte → Byte → Byte
without_bits [] m = []
without_bits (b ∷ byte) [] = b ∷ byte
without_bits (b ∷ byte) (x ∷ m) = (b && not x) ∷ without_bits byte m

-- `(a & b) != 0`
unfoldable pub any_bits : Byte → Byte → Bool
any_bits [] m = false
any_bits (b ∷ byte) [] = false
any_bits (b ∷ byte) (x ∷ m) = (b && x) || any_bits byte m

abbrev pub Bitfield : Type 0
Bitfield = ℕ × Byte

pub record DynamicBitmask : Type 0 where
  pub bits : List Byte
  pub freebits : List Byte

-- A change of one element of an array.
unfoldable pub at_byte : (Byte → Byte) → ℕ → List Byte → List Byte
at_byte f i [] = []
at_byte f zero (b ∷ bytes) = f b ∷ bytes
at_byte f (suc i) (b ∷ bytes) = b ∷ at_byte f i bytes

abbrev pub byte_at : ℕ → List Byte → Byte
byte_at i [] = []
byte_at zero (b ∷ bytes) = b
byte_at (suc i) (b ∷ bytes) = byte_at i bytes

-- The inner loop: `current_pos` goes through the bits that are left, from the position `k` on.
unfoldable pub clear_position : ℕ → Byte → Option ℕ
clear_position k [] = none
clear_position k (b ∷ byte) = let rest = clear_position (k + 1) byte in if b then rest else some k

-- The outer loop, from the byte `i` on.
unfoldable pub free_position : ℕ → List Byte → Option (ℕ × ℕ)
unfolding clear_position
free_position i [] = none
free_position i (b ∷ bytes) =
    let rest = free_position (i + 1) bytes in
    elim (clear_position 0 b) [ none ↦ rest | some k ↦ some (i, k) ]

abbrev pub constructed : DynamicBitmask
constructed = record {
  bits = zeros 8 ∷ zeros 8 ∷ zeros 8 ∷ zeros 8 ∷ [];
  freebits = zeros 8 ∷ zeros 8 ∷ zeros 8 ∷ zeros 8 ∷ [];
}

-- `none` for `std::bad_alloc`
unfoldable pub allocate : DynamicBitmask → Option Bitfield × DynamicBitmask
unfolding free_position at_byte with_bits
allocate s =
    let size : ℕ = length s.bits in
    let grown : DynamicBitmask = record {
      bits = s.bits ++ zeros 8 ∷ [];
      freebits = s.freebits ++ one_hot 8 0 ∷ [];
    } in
    elim (free_position 0 s.freebits) [
      | some (i, k) ↦ (
        some (i, one_hot 8 k),
        record s { freebits = at_byte (λ b. with_bits b (one_hot 8 k)) i s.freebits },
      )
      | none ↦ if size == 255 then (none, s) else (some (size, one_hot 8 0), grown)
    ]

unfoldable pub deallocate : Bitfield → DynamicBitmask → Bool × DynamicBitmask
unfolding at_byte without_bits
deallocate (i, m) s =
    if ltb i (length s.bits)
    then (true, record s { freebits = at_byte (λ b. without_bits b m) i s.freebits })
    else (false, s)

unfoldable pub toggle : Bitfield → Bool → DynamicBitmask → DynamicBitmask
unfolding at_byte with_bits without_bits
toggle (i, m) state s =
    if ltb i (length s.bits)
    then record s {
      bits = at_byte (λ b. if state then with_bits b m else without_bits b m) i s.bits;
    }
    else s

-- `none` for the `ModuleException`
unfoldable pub get : Bitfield → DynamicBitmask → Option Bool
unfolding any_bits
get (i, m) s = if ltb i (length s.bits) then some (any_bits (byte_at i s.bits) m) else none
