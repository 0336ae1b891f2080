-- ===== src/Duration.antt =====
-- src/helperfuncs.cpp: `InspIRCd::Duration`, from a text such as `1h30m` to seconds. The text is read
-- from its end; here `backwards` is the text turned round. Its `long` has 64 bits; a number that
-- overflows is undefined in the source, and `none` here.
pub mod Meaning
mod Tests
use hottpd.Base.{
  ℕ, ◌+◌, ◌*◌, ◌-◌, Bool, true, false, ◌&&◌, ◌||◌, [], ◌∷◌, ◌++◌, ◌==◌, leb, if◌then◌else◌, Bytes,
  ◌≡◌, refl, sym, ap, ◌∙◌, arith, Bool-cases, inl, inr, ==_iff, Option, none, some, Option-cases,
  zero, suc, ◌≤◌, ◌<◌, ◌^◌,
}

-- `duration_multi`
unfoldable pub duration_multi : ℕ → ℕ
duration_multi c =
    if c == b'D' || c == b'd'
    then 86400
    else if c == b'H' || c == b'h'
    then 3600
    else if c == b'M' || c == b'm'
    then 60
    else if c == b'W' || c == b'w'
    then 604800
    else if c == b'Y' || c == b'y'
    then 31536000
    else 1

abbrev pub is_digit : ℕ → Bool
is_digit c = leb b'0' c && leb c b'9'

pub record Count : Type 0 where
  pub multiplier : ℕ
  pub total : ℕ
  pub times : ℕ
  pub subtotal : ℕ

abbrev pub long_max : ℕ
long_max = 9223372036854775807

-- One character of the loop. What is computed on the way to a number is not above it.
unfoldable pub count : ℕ → Count → Option Count
unfolding duration_multi
count c s =
    let subtotal = s.subtotal + (c - b'0') * s.times in
    let total = s.total + s.subtotal * duration_multi s.multiplier in
    if is_digit c
    then if leb subtotal long_max && leb (s.times * 10) long_max
      then some (record s { subtotal = subtotal; times = s.times * 10 })
      else none
    else if s.subtotal == 0
    then some (record { multiplier = c; total = s.total; times = 1; subtotal = 0 })
    else if leb total long_max
    then some (record { multiplier = c; total = total; times = 1; subtotal = 0 })
    else none

unfoldable pub count_all : Bytes → Count → Option Count
unfolding count
count_all [] s = some s
count_all (c ∷ backwards) s = elim (count c s) [ none ↦ none | some s' ↦ count_all backwards s' ]

abbrev pub reversed : Bytes → Bytes
reversed [] = []
reversed (c ∷ text) = reversed text ++ c ∷ []

abbrev pub initial : Count
initial = record { multiplier = 0; total = 0; times = 1; subtotal = 0 }

-- The sum that is returned.
unfoldable pub finish : Count → Option ℕ
unfolding duration_multi
finish s =
    let total =
      if s.multiplier == 0
      then s.total + s.subtotal
      else s.total + s.subtotal * duration_multi s.multiplier in
    if leb total long_max then some total else none

unfoldable pub duration : Bytes → Option ℕ
unfolding count_all finish
duration text = elim (count_all (reversed text) initial) [ none ↦ none | some s ↦ finish s ]
