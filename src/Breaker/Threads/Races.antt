-- ===== src/Breaker/Threads/Races.antt =====
-- What goroutines that overlap in the breaker's methods can do to it.
use sentrydns.Base.{ℕ, ◌+◌, ◌-◌, ◌^◌, ◌<◌, ◌≡◌, true, List, [], ◌∷◌, arith, i32_add, i32_leb, ◌++◌}
use sentrydns.Breaker.{closed, failure, success, probe}
use sentrydns.Breaker.Threads.{
  Place, idle, returned, opened, Shared, advance, Move, calls, steps, call_at, advance_at, happen,
  interleave,
}
use sentrydns.Breaker.Threads.Alone.{turns}

abbrev pub two_idle : List Place
two_idle = idle ∷ idle ∷ []

-- Both goroutines are in `recordSuccess` and load the count before either takes one off.
abbrev pub two_successes : List Move
two_successes =
    calls 0 success
    ∷ calls 1 success
    ∷ steps 0 0
    ∷ steps 0 0
    ∷ steps 1 0
    ∷ steps 1 0
    ∷ steps 0 0
    ∷ steps 1 0
    ∷ []

-- Two goroutines that record a success of a closed breaker with a count of 1 can take off one each, and
-- leave the count at -1, as an `int32`.
pub negative_count :
    (s : Shared)
    → s.breaker.state ≡ closed
    → s.breaker.failures ≡ 1
    → let (ps, t) = interleave two_successes (two_idle, s) in
      (ps ≡ two_idle) × (t.breaker.state ≡ closed) × (t.breaker.failures ≡ 2 ^ 32 - 1)
unfolding interleave happen call_at advance_at advance
negative_count s c one = ground arith

-- Goroutine 0 fails and wins the swap; goroutine 1 asks for a probe at that moment.
abbrev pub early_probe : ℕ → List Move
early_probe now = calls 0 (failure now) ∷ turns 0 now 3 ++ (calls 1 (probe now) ∷ turns 1 now 4)

-- Goroutine 1 succeeds with its probe; then goroutine 0 goes on.
abbrev pub late_notice : ℕ → List Move
late_notice now = early_probe now ++ (calls 1 success ∷ turns 1 now 4) ++ turns 0 now 4

-- A failure that opens a closed breaker whose previous opening, if any, is longer ago than the
-- cooldown: a goroutine that comes in before the new time is stored gets its probe at that same moment.
-- Where it succeeds before the first goroutine goes on, the gauge is left at 1 with the breaker closed
-- and no goroutine in a call.
pub overtaken :
    (s : Shared) (now : ℕ)
    → s.breaker.state ≡ closed
    → i32_leb s.breaker.threshold (i32_add s.breaker.failures 1) ≡ true
    → s.breaker.last_open + s.breaker.cooldown < now
    → let (ps, t) = interleave (late_notice now) (two_idle, s) in
      ((interleave (early_probe now) (two_idle, s)).0 ≡ opened ∷ returned true ∷ [])
      × (ps ≡ two_idle)
      × (t.breaker.state ≡ closed)
      × (t.gauge.open_gauge ≡ 1)
unfolding interleave happen call_at advance_at advance
overtaken s now c t later = ground arith
