-- ===== src/Wildcard/Correct.antt =====
-- The loops of `csmatch` and `match` (src/wildcard.cpp) beside `Matches`.

use hottpd.Base.{
  ℕ, ◌+◌, ◌*◌, ◌≤◌, Bool, ◌≢◌, inl, inr, none, [], ◌∷◌, ◌==◌, length, Bytes, arith, Bool-cases,
  ==_iff,
}
use hottpd.Wildcard.{accepts, lead, match_with, csmatch, match, same_folded}
use hottpd.Wildcard.Matches.{Matches, byte, byte_inv}
use hottpd.Wildcard.Loop.{Decides, Decides-iff, loop-end, loop-Decides}

module _ (same : ℕ → ℕ → Bool) where
  -- Before the first star the two texts are compared byte by byte.
  lead-Decides :
      (f : ℕ) (wild string : Bytes)
      → (length string + 1) * (length wild + 1) + 2 ≤ f
      → Decides (Matches same wild string) (lead same f wild string)
  unfolding lead
  lead-Decides f wild [] lt =
      loop-end same (Matches same wild []) 0 f wild none (λ m. m) (λ m. inl m) (λ l. elim l [ ])
        (omega arith)
  lead-Decides f [] (c ∷ string) lt = λ m. elim m [ ]
  lead-Decides f (w ∷ wild) (c ∷ string) lt = elim (Bool-cases (w == b'*')) [
    | inl e ↦ rw e (
        loop-Decides same (Matches same (w ∷ wild) (c ∷ string)) (length wild + 2) f (w ∷ wild)
          (c ∷ string) none
          (record {
            now = λ m. m;
            later = λ l. elim l [ ];
            complete = λ m. inl m;
            shift = λ l. elim l [ ];
            sized = tt;
            armed = (==_iff w b'*').0 e;
            short = omega arith;
          })
          (omega arith))
    | inr e ↦
        let n : w ≢ b'*' = ground arith in
        elim (Bool-cases (accepts same w c)) [
          | inl a ↦
              rw (e, a)
                (Decides-iff (Matches same wild string) (Matches same (w ∷ wild) (c ∷ string)) _
                  (λ m. byte n a m, λ m. (byte_inv n m).1)
                  (lead-Decides f wild string (omega arith)))
          | inr a ↦ rw (e, a) (λ m. cc (byte_inv n m).0)
        ]
  ]

  pub match_with-Decides :
      (string wild : Bytes) → Decides (Matches same wild string) (match_with same string wild)
  unfolding match_with
  match_with-Decides string wild = lead-Decides _ wild string (omega arith)

-- `csmatch` ends within the fuel, never reads through a null pointer, and answers true exactly
-- when the string matches the mask, bytes being compared as they are.
pub csmatch-Decides :
    (string wild : Bytes) → Decides (Matches ◌==◌ wild string) (csmatch string wild)
unfolding csmatch
csmatch-Decides = match_with-Decides ◌==◌

-- `match` ends within the fuel, never reads through a null pointer, and answers true exactly when
-- the string matches the mask, the case of ASCII letters being ignored.
pub match-Decides :
    (string wild : Bytes) → Decides (Matches same_folded wild string) (match string wild)
unfolding match
match-Decides = match_with-Decides same_folded
