-- ===== src/Timers/Tests.antt =====
-- A manager of timers that sorts by insertion.
use hottpd.Base.{ℕ, ◌≡◌, refl, Bool, true, false, some, List, [], ◌∷◌, ℤ, pos, if◌then◌else◌}
use hottpd.Timers.{Timer, before, make_timer, tick_timers}
use hottpd.Timers.Settled.{Settled}

abbrev insert : Timer → List Timer → List Timer
insert t [] = t ∷ []
insert t (u ∷ timers) = if before u t then u ∷ insert t timers else t ∷ u ∷ timers

abbrev sort : List Timer → List Timer
sort [] = []
sort (t ∷ timers) = insert t (sort timers)

-- Each tick is noted by its timer's address, and the timers go on as they are.
abbrev tick : List ℕ → ℤ → Timer → List Timer → Bool × List Timer × List ℕ
tick w time t timers = (t.repeat, timers, t.address ∷ w)

abbrev two : List Timer
unfolding make_timer
two = make_timer 1 (pos 5) (pos 100) true ∷ make_timer 2 (pos 7) (pos 100) false ∷ []

both_tick :
    tick_timers sort tick 3 (pos 110) (two, [])
    ≡ some (make_timer 1 (pos 5) (pos 110) true ∷ [], 2 ∷ 1 ∷ [])
unfolding tick_timers make_timer two
both_tick = refl
