-- ===== src/Breaker.antt =====
-- The circuit breaker of internal/resolver/resolver.go. Each method is one step on the record: an
-- atomic field is a field, a compare-and-swap of a state that was just read succeeds, the clock is
-- an argument, and the argument of the `onStateChange` call is returned beside the new record.
pub mod Trip
pub mod Probe
pub mod Threads
mod Tests
use sentrydns.Base.{
  ℕ, ◌+◌, ◌≡◌, Bool, true, false, ◌&&◌, ◌||◌, Option, none, some, List, [], ◌∷◌, leb, if◌then◌else◌,
  i32_add, i32_pred, i32_leb, i32_ltb, i64_inc,
}

pub data CbState : Type 0 where
  closed open_ half_open : CbState

-- `failures` and `threshold` are `int32` bit patterns; `last_open` and `cooldown` are nanoseconds.
pub record Breaker : Type 0 where
  pub state : CbState
  pub failures : ℕ
  pub threshold : ℕ
  pub last_open : ℕ
  pub cooldown : ℕ

-- Whether a failure that brings the count to `n` opens the breaker.
abbrev pub trips : CbState → ℕ → ℕ → Bool
trips half_open n threshold = true
trips closed n threshold = i32_leb threshold n
trips open_ n threshold = false

unfoldable pub record_failure : ℕ → Breaker → Breaker × Option CbState
record_failure now cb =
    let n = i32_add cb.failures 1 in
    if trips cb.state n cb.threshold
    then (record cb { state = open_; failures = 0; last_open = now }, some open_)
    else (record cb { failures = n }, none)

abbrev pub success_in : CbState → Breaker → Breaker × Option CbState
success_in half_open cb = (record cb { state = closed; failures = 0 }, some closed)
success_in closed cb =
    (if i32_ltb 0 cb.failures then record cb { failures = i32_pred cb.failures } else cb, none)
success_in open_ cb = (cb, none)

unfoldable pub record_success : Breaker → Breaker × Option CbState
record_success cb = success_in cb.state cb

abbrev pub not_closed : CbState → Bool
not_closed closed = false
not_closed open_ = true
not_closed half_open = true

unfoldable pub is_open : Breaker → Bool
is_open cb = not_closed cb.state

-- `time.Since(lastOpen) <= cooldown`, with the difference moved to the other side.
abbrev pub probe_in : CbState → ℕ → Breaker → Breaker × Bool
probe_in open_ now cb =
    if leb now (cb.last_open + cb.cooldown)
    then (cb, false)
    else (record cb { state = half_open }, true)
probe_in closed now cb = (cb, false)
probe_in half_open now cb = (cb, false)

unfoldable pub try_probe : ℕ → Breaker → Breaker × Bool
try_probe now cb = probe_in cb.state now cb

-- The two counters that `onStateChange` writes, as `New` sets it up for each breaker.
pub record Gauge : Type 0 where
  pub trips_total : ℕ
  pub open_gauge : ℕ

unfoldable pub on_state_change : Option CbState → Gauge → Gauge
on_state_change none g = g
on_state_change (some open_) g = record { trips_total = i64_inc g.trips_total; open_gauge = 1 }
on_state_change (some closed) g = record g { open_gauge = 0 }
on_state_change (some half_open) g = g

-- A call of one of the methods that change the breaker, at a time where it reads the clock.
pub data Call : Type 0 where
  failure : ℕ → Call
  success : Call
  probe : ℕ → Call

unfoldable pub step : Breaker → Call → Breaker
step cb (failure now) = (record_failure now cb).0
step cb success = (record_success cb).0
step cb (probe now) = (try_probe now cb).0

unfoldable pub run : Breaker → List Call → Breaker
unfolding step
run cb [] = cb
run cb (c ∷ cs) = run (step cb c) cs

-- The same call with the notification passed to the closure that `New` builds.
unfoldable pub watched_step : Breaker × Gauge → Call → Breaker × Gauge
watched_step (cb, g) (failure now) =
    let (cb', note) = record_failure now cb in (cb', on_state_change note g)
watched_step (cb, g) success = let (cb', note) = record_success cb in (cb', on_state_change note g)
watched_step (cb, g) (probe now) = ((try_probe now cb).0, g)

unfoldable pub watched_run : Breaker × Gauge → List Call → Breaker × Gauge
unfolding watched_step
watched_run s [] = s
watched_run s (c ∷ cs) = watched_run (watched_step s c) cs
