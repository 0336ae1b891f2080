-- ===== src/Timers.antt =====
-- src/timer.cpp and include/timer.h: `TimerManager`. A timer is told from others by the number of
-- its address. `std::sort` and the `Tick` of a timer are parameters: a `Tick` is given the timers of
-- the manager, which it may change, and says whether its timer repeats after it. Times and intervals
-- are integers, without a bound.
pub mod Settled
pub mod Tests
use hottpd.Base.{
  ℕ, zero, suc, ◌+◌, ◌-◌, ℤ, pos, negsuc, leb, Bool, true, false, Option, none, some, List, [], ◌∷◌,
  ◌++◌, ◌==◌, ltb, if◌then◌else◌,
}

abbrev pub pos_part : ℤ → ℕ
pos_part (pos n) = n
pos_part (negsuc n) = 0

abbrev pub neg_part : ℤ → ℕ
neg_part (pos n) = 0
neg_part (negsuc n) = suc n

abbrev pub difference : ℕ → ℕ → ℤ
difference a b = if leb b a then pos (a - b) else negsuc (b - a - 1)

infixl 65 ◌+ℤ◌
unfoldable pub ◌+ℤ◌ : ℤ → ℤ → ℤ
a +ℤ b = difference (pos_part a + pos_part b) (neg_part a + neg_part b)

abbrev pub ltb_ℤ : ℤ → ℤ → Bool
ltb_ℤ a b = ltb (pos_part a + neg_part b) (pos_part b + neg_part a)

pub record Timer : Type 0 where
  pub address : ℕ
  pub trigger : ℤ
  pub secs : ℤ
  pub repeat : Bool

-- The constructor.
unfoldable pub make_timer : ℕ → ℤ → ℤ → Bool → Timer
unfolding ◌+ℤ◌
make_timer address secs_from_now now repeating = record {
  address = address;
  trigger = now +ℤ secs_from_now;
  secs = secs_from_now;
  repeat = repeating;
}

-- `TimerComparison`
abbrev pub before : Timer → Timer → Bool
before one two = ltb_ℤ one.trigger two.trigger

unfoldable pub del_timer : ℕ → List Timer → List Timer
del_timer address [] = []
del_timer address (t ∷ timers) =
    if t.address == address then timers else t ∷ del_timer address timers

module _ (sort : List Timer → List Timer) where
  unfoldable pub add_timer : Timer → List Timer → List Timer
  add_timer t timers = sort (timers ++ t ∷ [])

  module _ {World : Type 0}
      (tick : World → ℤ → Timer → List Timer → Bool × List Timer × World) where
    -- `none` if the fuel runs out.
    unfoldable pub tick_timers : ℕ → ℤ → List Timer × World → Option (List Timer × World)
    unfolding add_timer ◌+ℤ◌
    tick_timers zero time state = none
    tick_timers (suc fuel) time ([], w) = some ([], w)
    tick_timers (suc fuel) time (t ∷ timers, w) =
        let (repeats, left, w') = tick w time t timers in
        let again = add_timer (record t { trigger = time +ℤ t.secs; repeat = repeats }) left in
        let rest = tick_timers fuel time ((if repeats then again else left), w') in
        if ltb_ℤ t.trigger time then rest else some (t ∷ timers, w)
