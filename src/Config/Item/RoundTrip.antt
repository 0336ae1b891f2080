-- ===== src/Config/Item/RoundTrip.antt =====
-- An int that a validator sets is the int that is read back.
use hottpd.Base.{
  ℕ, ◌^◌, ◌<◌, ◌≡◌, refl, ap, ◌∙◌, true, [], ◌∷◌, ltb, Bytes, decimal, atoi_u32, atoi_u32-decimal,
  pos, arith,
}
use hottpd.Config.Item.{signed, int_text, get_integer}

signed-pos : (n : ℕ) → n < 2 ^ 31 → signed n ≡ pos n
unfolding signed
signed-pos n h = let e : ltb n (2 ^ 31) ≡ true = ground (arith, h) in rw (signed, e) refl

get_integer-atoi_u32 : (v : Bytes) → get_integer v ≡ signed (atoi_u32 v)
unfolding get_integer atoi_u32 signed
get_integer-atoi_u32 [] = refl
get_integer-atoi_u32 (c ∷ v) = refl

-- `Set(int)` and `GetInteger`, for an int that is not negative.
pub get_integer-int_text : (n : ℕ) → n < 2 ^ 31 → get_integer (int_text (pos n)) ≡ pos n
unfolding int_text
get_integer-int_text n h =
    get_integer-atoi_u32 (decimal n)
    ∙ ap (λ k. signed k) (atoi_u32-decimal n (omega (arith, h)))
    ∙ signed-pos n h
