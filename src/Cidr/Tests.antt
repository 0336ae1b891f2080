-- ===== src/Cidr/Tests.antt =====
-- An address in a network, and one beside it.
use hottpd.Base.{
  ℕ, ◌≡◌, ◌↔◌, ◌/◌, ◌%◌, ◌==◌, refl, true, false, Option, some, none, List, [], ◌∷◌, Bytes, codes,
  eq_bytes, take, arith, if◌then◌else◌, All,
}
use hottpd.Cidr.{Byte, match_cidr_bits, match_cidr}
use hottpd.Cidr.Masks.{IsByte, bits_of}
use hottpd.Cidr.Prefix.{match_cidr_bits_iff}

abbrev byte : ℕ → Byte
byte n =
    (n / 128 % 2 == 1)
    ∷ (n / 64 % 2 == 1)
    ∷ (n / 32 % 2 == 1)
    ∷ (n / 16 % 2 == 1)
    ∷ (n / 8 % 2 == 1)
    ∷ (n / 4 % 2 == 1)
    ∷ (n / 2 % 2 == 1)
    ∷ (n % 2 == 1)
    ∷ []

abbrev address : List Byte
address = byte 10 ∷ byte 1 ∷ byte 77 ∷ byte 3 ∷ []

abbrev network : List Byte
network = byte 10 ∷ byte 1 ∷ byte 64 ∷ byte 0 ∷ []

bytes_are : All IsByte address
bytes_are = (refl, (refl, (refl, (refl, tt))))

network_is : All IsByte network
network_is = (refl, (refl, (refl, (refl, tt))))

inside : match_cidr_bits address network 20 ≡ true
unfolding match_cidr_bits
inside = refl

outside : match_cidr_bits address network 21 ≡ false
unfolding match_cidr_bits
outside = refl

match_cidr_bits_iff_example :
    (match_cidr_bits address network 20 ≡ true)
    ↔ (take 20 (bits_of address) ≡ take 20 (bits_of network))
match_cidr_bits_iff_example =
    match_cidr_bits_iff address network 20 bytes_are network_is refl (omega arith)

-- One address and one network are known here.
abbrev inet_pton : Bytes → Option (List Byte)
inet_pton text =
    if eq_bytes text (codes "10.1.77.3")
    then some address
    else if eq_bytes text (codes "10.1.64.0")
    then some network
    else none

matched : match_cidr (λ text. none) inet_pton (codes "10.1.77.3") (codes "10.1.64.0/20") ≡ true
unfolding match_cidr eq_bytes
matched = refl
