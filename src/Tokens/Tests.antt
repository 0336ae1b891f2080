-- ===== src/Tokens/Tests.antt =====
-- Lists of words, and one with an empty word in it.
use hottpd.Base.{◌≡◌, refl, some, [], ◌∷◌, Bytes, codes, arith, All}
use hottpd.Tokens.{sepstream, get_tokens, stringjoiner}
use hottpd.Tokens.RoundTrip.{IsWord, get_tokens-stringjoiner}

-- The word after an empty one loses its first byte, here all that it has.
word_lost : get_tokens 9 b',' (sepstream (codes "a,,b")) ≡ some (codes "a" ∷ [])
unfolding get_tokens
word_lost = refl

words_are : All (IsWord b',') (codes "ab" ∷ codes "c" ∷ [])
words_are = (
  record { some_byte = λ e. ground (arith, e); no_sep = (refl, (refl, tt)) },
  (record { some_byte = λ e. ground (arith, e); no_sep = (refl, tt) }, tt),
)

get_tokens-stringjoiner_example :
    (text : Bytes) × (stringjoiner (b',' ∷ []) (codes "ab" ∷ codes "c" ∷ []) 0 1 ≡ some text)
    × (get_tokens 3 b',' (sepstream text) ≡ some (codes "ab" ∷ codes "c" ∷ []))
get_tokens-stringjoiner_example =
    get_tokens-stringjoiner b',' (codes "ab") (codes "c" ∷ []) words_are
