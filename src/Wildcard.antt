-- ===== src/Wildcard.antt =====
-- src/wildcard.cpp: `csmatch` and `match`, which differ in how two bytes are compared.
-- A C string is the list of its bytes before the NUL; a pointer into one is a suffix of the list.
pub mod Matches
pub mod Loop
pub mod Correct
pub mod Tests
use hottpd.Base.{
  ℕ, zero, suc, ◌+◌, ◌*◌, Bool, true, false, ◌||◌, Option, none, some, List, [], ◌∷◌, ◌==◌,
  if◌then◌else◌, length, Bytes, is_empty, tolower,
}
use mathlib.Core.List.{tail}

-- How a run ends. `crash` is a read through a null `mp`; `out_of_fuel` is the model's own.
pub data Run : Type 0 where
  done : Bool → Run
  crash : Run
  out_of_fuel : Run

-- `mp` and `cp`, once they are set
abbrev pub Saved : Type 0
Saved = Option (Bytes × Bytes)

-- The third loop, and `!*wild`.
pub only_stars : Bytes → Bool
only_stars [] = true
only_stars (w ∷ wild) = if w == b'*' then only_stars wild else false

-- The last branch of the second loop.
pub retry : (Bytes → Bytes → Saved → Run) → Saved → Run
retry next none = crash
retry next (some (mp, cp)) = next mp cp (some (mp, tail cp))

-- At a star: a final one matches all that is left.
pub at_star : (Bytes → Bytes → Saved → Run) → Bytes → Bytes → Bytes → Run
at_star next [] string rest = done true
at_star next (w ∷ wild) string rest = next (w ∷ wild) string (some (w ∷ wild, rest))

module _ (same : ℕ → ℕ → Bool) where
  abbrev pub accepts : ℕ → ℕ → Bool
  accepts w c = same w c || w == b'?'

  pub loop : ℕ → Bytes → Bytes → Saved → Run
  unfolding only_stars retry at_star
  loop zero wild string saved = out_of_fuel
  loop (suc f) wild [] saved = done (only_stars wild)
  loop (suc f) [] (c ∷ string) saved = retry (loop f) saved
  loop (suc f) (w ∷ wild) (c ∷ string) saved =
      let onward = loop f wild string saved in
      if w == b'*'
      then at_star (loop f) wild (c ∷ string) string
      else if accepts w c
      then onward
      else retry (loop f) saved

  -- The first loop; it stops at the first star, or at the end of the string.
  pub lead : ℕ → Bytes → Bytes → Run
  unfolding loop
  lead f wild [] = loop f wild [] none
  lead f [] (c ∷ string) = done false
  lead f (w ∷ wild) (c ∷ string) =
      let onward = lead f wild string in
      if w == b'*'
      then loop f (w ∷ wild) (c ∷ string) none
      else if accepts w c
      then onward
      else done false

  pub match_with : Bytes → Bytes → Run
  unfolding lead
  match_with string wild = lead ((length string + 1) * (length wild + 1) + 2) wild string

unfoldable pub csmatch : Bytes → Bytes → Run
unfolding match_with
csmatch = match_with ◌==◌

abbrev pub same_folded : ℕ → ℕ → Bool
same_folded w c = tolower w == tolower c

unfoldable pub match : Bytes → Bytes → Run
unfolding match_with tolower
match = match_with same_folded
