-- ===== src/Hex/Tests.antt =====
-- A pair of digits.
use hottpd.Base.{ℕ, ◌≡◌, refl, List, [], ◌∷◌, some, none, codes, arith}
use hottpd.Hex.{unhexchar, hex, unhex, unhex-hex}

hexed : hex 514 (10 ∷ 255 ∷ []) ≡ some (codes "0aff")
unfolding hex
hexed = refl

-- The byte after `9` is read as a digit too.
no_digit : unhexchar b'3' b':' ≡ some b'/'
unfolding unhexchar
no_digit = refl

-- Two bytes need a buffer of five.
too_long : hex 4 (10 ∷ 255 ∷ []) ≡ none
unfolding hex
too_long = refl

unhex-hex_example :
    (text : List ℕ) × (hex 5 (10 ∷ 255 ∷ []) ≡ some text) × (unhex text ≡ 10 ∷ 255 ∷ [])
unhex-hex_example = unhex-hex 5 (10 ∷ 255 ∷ []) (omega arith, (omega arith, tt)) (omega arith)
