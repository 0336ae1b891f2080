-- ===== src/Config/Item.antt =====
-- `ValueItem` (src/configreader.cpp), the text of a value that a validator may replace, and
-- `strlcpy` (src/inspstring.cpp).
pub mod RoundTrip
use hottpd.Base.{
  ℕ, zero, suc, ◌+◌, ◌-◌, ◌^◌, Bool, true, false, ◌||◌, [], ◌∷◌, ◌==◌, ltb, if◌then◌else◌, Bytes,
  codes, is_empty, eq_bytes, decimal, atoi_u32, ℤ, pos, negsuc,
}
use mathlib.Core.Bool.{not}

-- The C string in `dst` after `strlcpy(dst, src, siz)`, with `src` given as far as its NUL or past it.
unfoldable pub strlcpy : Bytes → ℕ → Bytes
strlcpy src zero = []
strlcpy src (suc zero) = []
strlcpy [] (suc (suc n)) = []
strlcpy (c ∷ src) (suc (suc n)) = let rest = strlcpy src (suc n) in if c == 0 then [] else c ∷ rest

-- An int from its bits.
unfoldable pub signed : ℕ → ℤ
signed n = if ltb n (2 ^ 31) then pos n else negsuc (2 ^ 32 - 1 - n)

-- What `n << value` writes for an int.
unfoldable pub int_text : ℤ → Bytes
unfolding decimal
int_text (pos n) = decimal n
int_text (negsuc n) = b'-' ∷ decimal (suc n)

unfoldable pub get_integer : Bytes → ℤ
unfolding atoi_u32 signed
get_integer v = if is_empty v then pos 0 else signed (atoi_u32 v)

abbrev is_zero : ℤ → Bool
is_zero (pos n) = n == 0
is_zero (negsuc n) = false

unfoldable pub get_bool : Bytes → Bool
unfolding get_integer
get_bool v = not (is_zero (get_integer v)) || eq_bytes v (codes "yes") || eq_bytes v (codes "true")
