-- ===== src/Cidr.antt =====
-- src/cidr.cpp: `MatchCIDRBits` and `MatchCIDR`, and the overloads of `match` in src/wildcard.cpp that
-- use them. An `unsigned char` of an address is its eight bits, the highest first, since it is only
-- compared and masked. `inet_pton` is a parameter, for each of the two families; a build without IPv6
-- is one whose `inet_pton6` reads nothing.
pub mod Masks
pub mod Prefix
mod Tests
use hottpd.Base.{
  ℕ, zero, suc, ◌+◌, ◌-◌, ◌*◌, ◌/◌, ◌%◌, Bool, true, false, ◌&&◌, ◌||◌, Option, none, some, List,
  [], ◌∷◌, ◌++◌, ◌==◌, ltb, if◌then◌else◌, length, take, drop, Bytes, find_char, rfind_char,
  atoi_u32,
}
use mathlib.Core.Bool.{not}
use hottpd.Wildcard.{Run, done, match, csmatch}

abbrev pub Byte : Type 0
Byte = List Bool

-- The lookup table: so many ones, then zeros.
unfoldable pub inverted_bits : ℕ → Byte
inverted_bits zero = false ∷ false ∷ false ∷ false ∷ false ∷ false ∷ false ∷ false ∷ []
inverted_bits (suc zero) = true ∷ false ∷ false ∷ false ∷ false ∷ false ∷ false ∷ false ∷ []
inverted_bits (suc (suc zero)) = true ∷ true ∷ false ∷ false ∷ false ∷ false ∷ false ∷ false ∷ []
inverted_bits (suc (suc (suc zero))) =
    true ∷ true ∷ true ∷ false ∷ false ∷ false ∷ false ∷ false ∷ []
inverted_bits (suc (suc (suc (suc zero)))) =
    true ∷ true ∷ true ∷ true ∷ false ∷ false ∷ false ∷ false ∷ []
inverted_bits (suc (suc (suc (suc (suc zero))))) =
    true ∷ true ∷ true ∷ true ∷ true ∷ false ∷ false ∷ false ∷ []
inverted_bits (suc (suc (suc (suc (suc (suc zero)))))) =
    true ∷ true ∷ true ∷ true ∷ true ∷ true ∷ false ∷ false ∷ []
inverted_bits (suc (suc (suc (suc (suc (suc (suc n))))))) =
    true ∷ true ∷ true ∷ true ∷ true ∷ true ∷ true ∷ false ∷ []

-- `a & b`
abbrev pub masked : Byte → Byte → Byte
masked [] m = []
masked (b ∷ byte) [] = []
masked (b ∷ byte) (x ∷ m) = (b && x) ∷ masked byte m

abbrev pub same_bit : Bool → Bool → Bool
same_bit true b = b
same_bit false b = not b

unfoldable pub same_byte : Byte → Byte → Bool
same_byte [] [] = true
same_byte [] (x ∷ b) = false
same_byte (x ∷ a) [] = false
same_byte (x ∷ a) (y ∷ b) = same_bit x y && same_byte a b

abbrev pub byte_at : ℕ → List Byte → Byte
byte_at i [] = []
byte_at zero (b ∷ bytes) = b
byte_at (suc i) (b ∷ bytes) = byte_at i bytes

-- `!memcmp(address, mask, n)`
unfoldable pub same_bytes : ℕ → List Byte → List Byte → Bool
unfolding same_byte
same_bytes zero address mask = true
same_bytes (suc n) (a ∷ address) (b ∷ mask) = same_byte a b && same_bytes n address mask
same_bytes (suc n) address mask = false

-- The comparison for so many whole bytes and a remainder of bits.
unfoldable pub match_parts : ℕ → ℕ → List Byte → List Byte → Bool
unfolding same_byte same_bytes inverted_bits
match_parts divisor modulus address mask =
    if not (modulus == 0)
      && not (
          same_byte (masked (byte_at divisor address) (inverted_bits modulus))
            (masked (byte_at divisor mask) (inverted_bits modulus)))
    then false
    else same_bytes divisor address mask

unfoldable pub match_cidr_bits : List Byte → List Byte → ℕ → Bool
unfolding match_parts
match_cidr_bits address mask mask_bits = match_parts (mask_bits / 8) (mask_bits % 8) address mask

module _ (inet_pton6 inet_pton4 : Bytes → Option (List Byte)) where
  -- One family: `none` if the address is not of it.
  unfoldable pub match_family : (Bytes → Option (List Byte)) → ℕ → Bytes → Bytes → ℕ → Option Bool
  unfolding match_cidr_bits
  match_family inet_pton most address mask bits = elim (inet_pton address) [
    | none ↦ none
    | some a ↦ elim (inet_pton mask) [
      | none ↦ some false
      | some m ↦ some (match_cidr_bits a m (if ltb most bits then most else bits))
    ]
  ]

  -- `MatchCIDR` without a user name.
  unfoldable pub match_cidr : Bytes → Bytes → Bool
  unfolding match_family rfind_char atoi_u32
  match_cidr address cidr_mask = elim (rfind_char b'/' cidr_mask) [
    | none ↦ false
    | some p ↦
        let mask = take p cidr_mask in
        let bits = atoi_u32 (drop (p + 1) cidr_mask) in
        elim (match_family inet_pton6 128 address mask bits) [
          | some answer ↦ answer
          | none ↦ elim (match_family inet_pton4 32 address mask bits) [
            | some answer ↦ answer
            | none ↦ false
          ]
        ]
  ]

  -- `MatchCIDR` with a user name before an `@` in both texts, which `match` compares.
  unfoldable pub match_cidr_user : Bytes → Bytes → Run
  unfolding match_cidr find_char match
  match_cidr_user address cidr_mask = elim (find_char b'@' cidr_mask) [
    | none ↦ done (match_cidr address cidr_mask)
    | some p ↦ elim (find_char b'@' address) [
      | none ↦ done (match_cidr address cidr_mask)
      | some q ↦ elim (match (take q address) (take p cidr_mask)) [
        | done true ↦ done (match_cidr (drop (q + 1) address) (drop (p + 1) cidr_mask))
        | r ↦ r
      ]
    ]
  ]

  -- `match` with all its arguments.
  unfoldable pub match_any : Bool → Bytes → Bytes → Bool → Run
  unfolding match_cidr_user csmatch
  match_any case_sensitive string mask use_cidr_match =
      let plain : Run = if case_sensitive then csmatch string mask else match string mask in
      elim (if use_cidr_match then match_cidr_user string mask else done false) [
        | done true ↦ done true
        | done false ↦ plain
        | r ↦ r
      ]
