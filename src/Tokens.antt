-- ===== src/Tokens.antt =====
-- src/hashcomp.cpp and include/hashcomp.h: `sepstream` and `stringjoiner`. An iterator into the text is
-- the rest of the text from there on.
pub mod RoundTrip
mod Tests
use hottpd.Base.{
  ℕ, zero, suc, ◌+◌, ◌-◌, Bool, true, false, ◌&&◌, Option, none, some, List, [], ◌∷◌, ◌++◌, ◌==◌,
  if◌then◌else◌, length, take, drop, get_elem?, Bytes, is_empty, ltb,
}
use mathlib.Core.Bool.{not}
use mathlib.Core.List.{tail}

pub record Sepstream : Type 0 where
  pub last_starting_position : Bytes
  pub n : Bytes

abbrev pub sepstream : Bytes → Sepstream
sepstream source = record { last_starting_position = source; n = source }

-- The loop of `GetToken`: the place of the next separator, or of the last byte; `none` at the end.
unfoldable pub token_end : ℕ → Bytes → Option Bytes
token_end sep [] = none
token_end sep (c ∷ []) = some (c ∷ [])
token_end sep (c ∷ d ∷ rest) =
    let onward = token_end sep (d ∷ rest) in if c == sep then some (c ∷ d ∷ rest) else onward

-- Separators at the end are taken off.
unfoldable pub without_trailing : ℕ → Bytes → Bytes
without_trailing sep [] = []
without_trailing sep (c ∷ token) =
    let rest = without_trailing sep token in if is_empty rest && c == sep then [] else c ∷ rest

-- `std::string(first, last)`
abbrev pub between : Bytes → Bytes → Bytes
between first last = take (length first - length last) first

-- At the place that the loop has found.
unfoldable pub cut_token : ℕ → Sepstream → Bytes → Bytes × Bool × Sepstream
unfolding without_trailing
cut_token sep s stop =
    let next = tail stop in
    let token =
      without_trailing sep
        (between s.last_starting_position (if is_empty next then [] else stop)) in
    let at = if is_empty next then stop else next in
    let n = if is_empty token then tail at else at in
    (token, not (is_empty n), record { last_starting_position = next; n = n })

-- The token, and whether it is one.
unfoldable pub get_token : ℕ → Sepstream → Bytes × Bool × Sepstream
unfolding token_end cut_token
get_token sep s = elim (token_end sep s.n) [
  | none ↦ ([], false, s)
  | some stop ↦ cut_token sep s stop
]

-- `while (stream.GetToken(x))`, for so many tokens at most.
unfoldable pub get_tokens : ℕ → ℕ → Sepstream → Option (List Bytes)
unfolding get_token
get_tokens zero sep s = none
get_tokens (suc fuel) sep s =
    let (token, more, s') = get_token sep s in
    let rest = get_tokens fuel sep s' in
    if more then elim rest [ none ↦ none | some tokens ↦ some (token ∷ tokens) ] else some []

-- `stringjoiner` from `begin` to `end`, for a sequence that has so many elements; `count` is how many
-- there are before the last.
unfoldable pub join_from : Bytes → List Bytes → ℕ → ℕ → Option Bytes
join_from seperator sequence v zero = get_elem? sequence v
join_from seperator sequence v (suc count) = elim (get_elem? sequence v) [
  | none ↦ none
  | some text ↦ elim (join_from seperator sequence (v + 1) count) [
    | none ↦ none
    | some rest ↦ some ((text ++ seperator) ++ rest)
  ]
]

-- `none` where an index is beyond the sequence. Where `end` is before `begin`, there is `end` alone.
unfoldable pub stringjoiner : Bytes → List Bytes → ℕ → ℕ → Option Bytes
unfolding join_from
stringjoiner seperator sequence begin end =
    if ltb end begin
    then get_elem? sequence end
    else join_from seperator sequence begin (end - begin)
