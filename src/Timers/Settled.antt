-- ===== src/Timers/Settled.antt =====
-- `TickTimers` (src/timer.cpp) and the timers that are due.
use hottpd.Base.{
  ℕ, suc, ◌≡◌, refl, Bool, false, Option, some, List, [], ◌∷◌, ℤ, pos, if◌then◌else◌, arith,
}
use hottpd.Timers.{ltb_ℤ, Timer}

abbrev pub count : (Timer → Bool) → List Timer → ℕ
count test [] = 0
count test (t ∷ timers) = if test t then suc (count test timers) else count test timers

-- How many are due at a time.
abbrev pub due : ℤ → List Timer → ℕ
due time = count (λ t. ltb_ℤ t.trigger time)

-- An interval below 0.
abbrev pub goes_back : Timer → Bool
goes_back t = ltb_ℤ t.secs (pos 0)

-- No timer stands after one that triggers later.
abbrev pub IsSorted : List Timer → Type 0
IsSorted [] = Unit
IsSorted (t ∷ timers) = (due t.trigger timers ≡ 0) × IsSorted timers

-- What `std::sort` by `TimerComparison` does: its result is in order, and a permutation.
pub record IsSort (sort : List Timer → List Timer) : Type 0 where
  pub sorts : (timers : List Timer) → IsSorted (sort timers)
  pub permutes :
      (test : Timer → Bool) (timers : List Timer) → count test (sort timers) ≡ count test timers

-- If nothing is due at a time, nothing is due before it.
pub due-earlier :
    (early late : ℤ) (timers : List Timer)
    → ltb_ℤ late early ≡ false
    → due late timers ≡ 0
    → due early timers ≡ 0
due-earlier early late [] h e = refl
due-earlier early late (t ∷ timers) h e = ground (arith, due-earlier early late timers h)

module _ (sort : List Timer → List Timer) (is_sort : IsSort sort) {World : Type 0}
    (tick : World → ℤ → Timer → List Timer → Bool × List Timer × World) where
  -- What the loop leaves.
  pub record Settled (time : ℤ) (result : Option (List Timer × World)) : Type 0 where
    pub timers : List Timer
    pub world : World
    pub ends : result ≡ some (timers, world)
    pub in_order : IsSorted timers
    pub none_due : due time timers ≡ 0
