-- ===== src/Tokens/RoundTrip.antt =====
-- `sepstream` reads back what `stringjoiner` joins (src/hashcomp.cpp).
use hottpd.Base.{
  ℕ, suc, ◌+◌, ◌-◌, ◌≡◌, ◌≢◌, refl, sym, ap, ◌∙◌, Bool, true, false, Option, none, some, List, [],
  ◌∷◌, ◌++◌, ◌==◌, if◌then◌else◌, length, length-append, take, get_elem?, take-append, Bytes, All,
  arith, append-nil, append_assoc,
}
use hottpd.Tokens.{
  Sepstream, sepstream, token_end, without_trailing, between, cut_token, get_token, get_tokens,
  join_from, stringjoiner,
}

-- A word that is not empty and holds no separator.
pub record IsWord (sep : ℕ) (word : Bytes) : Type 0 where
  pub some_byte : word ≢ []
  pub no_sep : All (λ c. (c == sep) ≡ false) word

-- The words with a separator between them.
abbrev joined : ℕ → List Bytes → Bytes
joined sep [] = []
joined sep (word ∷ []) = word
joined sep (word ∷ next ∷ words) = word ++ sep ∷ joined sep (next ∷ words)

without_trailing-word :
    (sep : ℕ) (word : Bytes) → All (λ c. (c == sep) ≡ false) word → without_trailing sep word ≡ word
unfolding without_trailing
without_trailing-word sep [] h = refl
without_trailing-word sep (c ∷ word) h = ground (arith, without_trailing-word sep word h.1, h.0)

-- The end of a word is found at the separator after it.
token_end-inner :
    (sep : ℕ) (word rest : Bytes) (d : ℕ)
    → All (λ c. (c == sep) ≡ false) word
    → token_end sep (word ++ sep ∷ d ∷ rest) ≡ some (sep ∷ d ∷ rest)
unfolding token_end
token_end-inner sep [] rest d h = ground arith
token_end-inner sep (c ∷ []) rest d h = ground (arith, h.0)
token_end-inner sep (c ∷ e ∷ word) rest d h =
    ground (arith, h.0, token_end-inner sep (e ∷ word) rest d h.1)

-- And that of the last word at its last byte.
token_end-last :
    (sep : ℕ) (c : ℕ) (word : Bytes)
    → All (λ c. (c == sep) ≡ false) (c ∷ word)
    → (x : ℕ) × (token_end sep (c ∷ word) ≡ some (x ∷ []))
unfolding token_end
token_end-last sep c [] h = (c, refl)
token_end-last sep c (d ∷ word) h =
    let (x, found) = token_end-last sep d word h.1 in (x, rw h.0 found)

between-append : (word rest : Bytes) → between (word ++ rest) rest ≡ word
between-append word rest =
    let size : length (word ++ rest) - length rest ≡ length word =
      omega (arith, length-append word rest) in
    ap (λ k. take k (word ++ rest)) size ∙ take-append word rest

get_token-inner :
    (sep c : ℕ) (word rest : Bytes) (d : ℕ)
    → All (λ c. (c == sep) ≡ false) (c ∷ word)
    → get_token sep (sepstream ((c ∷ word) ++ sep ∷ d ∷ rest))
      ≡ (c ∷ word, true, sepstream (d ∷ rest))
unfolding get_token cut_token
get_token-inner sep c word rest d h =
    rw
      (
        get_token,
        token_end-inner sep (c ∷ word) rest d h,
        between-append (c ∷ word) (sep ∷ d ∷ rest),
        without_trailing-word sep (c ∷ word) h,
      )
      refl

-- After the last word the stream is at its last byte, with nothing before it.
abbrev finished : ℕ → Sepstream
finished x = record { last_starting_position = []; n = x ∷ [] }

get_token-last :
    (sep c : ℕ) (word : Bytes)
    → All (λ c. (c == sep) ≡ false) (c ∷ word)
    → (x : ℕ) × (get_token sep (sepstream (c ∷ word)) ≡ (c ∷ word, true, finished x))
unfolding get_token cut_token
get_token-last sep c word h =
    let (x, found) = token_end-last sep c word h in
    let whole : between (c ∷ word) [] ≡ c ∷ word =
      ap (λ l. between l []) (sym (append-nil (c ∷ word))) ∙ between-append (c ∷ word) [] in
    (x, rw (get_token, found, whole, without_trailing-word sep (c ∷ word) h) refl)

get_tokens-finished : (fuel sep x : ℕ) → get_tokens (suc fuel) sep (finished x) ≡ some []
unfolding get_tokens get_token token_end cut_token
get_tokens-finished fuel sep x = refl

get_tokens-token :
    (fuel sep : ℕ) (s after : Sepstream) (token : Bytes) (tokens : List Bytes)
    → get_token sep s ≡ (token, true, after)
    → get_tokens fuel sep after ≡ some tokens
    → get_tokens (suc fuel) sep s ≡ some (token ∷ tokens)
unfolding get_tokens
get_tokens-token fuel sep s after token tokens e onward =
    let collect : Bytes × Bool × Sepstream → Option (List Bytes) = λ r.
      (let rest = get_tokens fuel sep r.2 in
        if r.1 then elim rest [ none ↦ none | some ts ↦ some (r.0 ∷ ts) ] else some []) in
    ap {B = Option (List Bytes)} collect e ∙ rw onward refl

get_tokens-joined :
    (sep : ℕ) (words : List Bytes)
    → All (IsWord sep) words
    → get_tokens (suc (length words)) sep (sepstream (joined sep words)) ≡ some words
unfolding get_tokens get_token token_end
get_tokens-joined sep [] h = refl
get_tokens-joined sep ([] ∷ words) h = absurd (h.0.some_byte refl)
get_tokens-joined sep ((c ∷ word) ∷ []) h =
    let (x, last) = get_token-last sep c word h.0.no_sep in
    get_tokens-token 1 sep (sepstream (c ∷ word)) (finished x) (c ∷ word) [] last
      (get_tokens-finished 0 sep x)
get_tokens-joined sep ((c ∷ word) ∷ [] ∷ words) h = absurd (h.1.0.some_byte refl)
get_tokens-joined sep ((c ∷ word) ∷ (d ∷ next) ∷ []) h =
    get_tokens-token 2 sep (sepstream ((c ∷ word) ++ sep ∷ d ∷ next)) (sepstream (d ∷ next))
      (c ∷ word) ((d ∷ next) ∷ []) (get_token-inner sep c word next d h.0.no_sep)
      (get_tokens-joined sep ((d ∷ next) ∷ []) h.1)
get_tokens-joined sep ((c ∷ word) ∷ (d ∷ next) ∷ more ∷ words) h =
    get_tokens-token (suc (suc (suc (length words)))) sep
      (sepstream ((c ∷ word) ++ sep ∷ d ∷ (next ++ sep ∷ joined sep (more ∷ words))))
      (sepstream (d ∷ (next ++ sep ∷ joined sep (more ∷ words)))) (c ∷ word)
      ((d ∷ next) ∷ more ∷ words)
      (get_token-inner sep c word (next ++ sep ∷ joined sep (more ∷ words)) d h.0.no_sep)
      (get_tokens-joined sep ((d ∷ next) ∷ more ∷ words) h.1)

get_elem?-append :
    (pre : List Bytes) (word : Bytes) (words : List Bytes)
    → get_elem? (pre ++ word ∷ words) (length pre) ≡ some word
get_elem?-append [] word words = refl
get_elem?-append (p ∷ pre) word words = get_elem?-append pre word words

join_from-joined :
    (sep : ℕ) (pre : List Bytes) (word : Bytes) (words : List Bytes) (v : ℕ)
    → v ≡ length pre
    → join_from (sep ∷ []) (pre ++ word ∷ words) v (length words) ≡ some (joined sep (word ∷ words))
unfolding join_from
join_from-joined sep pre word [] v e =
    ap (λ k. get_elem? (pre ++ word ∷ []) k) e ∙ get_elem?-append pre word []
join_from-joined sep pre word (next ∷ words) v e =
    let here : get_elem? (pre ++ word ∷ next ∷ words) v ≡ some word =
      ap (λ k. get_elem? (pre ++ word ∷ next ∷ words) k) e
      ∙ get_elem?-append pre word (next ∷ words) in
    let same : (pre ++ word ∷ []) ++ next ∷ words ≡ pre ++ word ∷ next ∷ words =
      append_assoc pre (word ∷ []) (next ∷ words) in
    let onward : join_from (sep ∷ []) (pre ++ word ∷ next ∷ words) (v + 1) (length words)
        ≡ some (joined sep (next ∷ words)) =
      ap (λ l. join_from (sep ∷ []) l (v + 1) (length words)) (sym same)
      ∙ join_from-joined sep (pre ++ word ∷ []) next words (v + 1)
          (omega (arith, e, length-append pre (word ∷ []))) in
    rw (join_from, here, onward, append_assoc word (sep ∷ []) (joined sep (next ∷ words))) refl

-- Words that are not empty and hold no separator, at least one of them: `stringjoiner` joins them all
-- with the separator, and `GetToken`, called until it answers false, gives them back.
pub get_tokens-stringjoiner :
    (sep : ℕ) (word : Bytes) (words : List Bytes)
    → All (IsWord sep) (word ∷ words)
    → (text : Bytes) × (stringjoiner (sep ∷ []) (word ∷ words) 0 (length words) ≡ some text)
      × (get_tokens (length words + 2) sep (sepstream text) ≡ some (word ∷ words))
unfolding stringjoiner
get_tokens-stringjoiner sep word words h = (
  joined sep (word ∷ words),
  ground (arith, join_from-joined sep [] word words 0 refl),
  ap (λ k. get_tokens k sep (sepstream (joined sep (word ∷ words)))) (omega arith)
      ∙ get_tokens-joined sep (word ∷ words) h,
)
