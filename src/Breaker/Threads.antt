-- ===== src/Breaker/Threads.antt =====
-- The methods of `circuitBreaker` of internal/resolver/resolver.go as many goroutines run them at
-- once: every load, store, addition and compare-and-swap of an atomic field is one step, between two
-- of which any other goroutine may take steps. A goroutine is the place it has reached in its call.
pub mod Wins
pub mod Alone
pub mod Races
use sentrydns.Base.{
  ℕ, zero, suc, ◌+◌, ◌≡◌, Bool, true, false, Option, none, some, List, [], ◌∷◌, leb, if◌then◌else◌,
  i32_add, i32_pred, i32_ltb, i64_inc,
}
use sentrydns.Breaker.{
  CbState, closed, open_, half_open, Breaker, trips, Gauge, Call, failure, success, probe,
}

-- Where a goroutine is. `idle` has no call to make, and `returned` has the answer of `tryProbe`.
pub data Place : Type 0 where
  idle : Place
  returned : Bool → Place
  -- `recordFailure`: before `failures.Add`, before `state.Load` with the new count, before the
  -- comparison and the swap with the state it saw, before `lastOpen.Store`, before `failures.Store`.
  failing : Place
  counted : ℕ → Place
  failure_saw : ℕ → CbState → Place
  opened : Place
  stamped : Place
  -- `onStateChange`: before the trip is counted and before the gauge is set.
  notifying : Place
  raising : Place
  lowering : Place
  -- `recordSuccess`: before `state.Load`, before the swap, before `failures.Store`, before
  -- `failures.Load`, before `failures.Add(-1)`.
  succeeding : Place
  saw_half_open : Place
  closing : Place
  saw_closed : Place
  saw_failures : Place
  -- `tryProbe`: before `state.Load`, before `lastOpen.Load`, before the clock is compared with the
  -- time it loaded, before the swap.
  probing : Place
  saw_open : Place
  loaded : ℕ → Place
  cooled : Place

-- What the goroutines share, and how often each swap has been won, which no code reads.
pub record Shared : Type 0 where
  pub breaker : Breaker
  pub gauge : Gauge
  pub opens : ℕ
  pub probes : ℕ
  pub closes : ℕ

abbrev pub is_state : CbState → CbState → Bool
is_state closed closed = true
is_state open_ open_ = true
is_state half_open half_open = true
is_state closed open_ = false
is_state closed half_open = false
is_state open_ closed = false
is_state open_ half_open = false
is_state half_open closed = false
is_state half_open open_ = false

abbrev pub won_open : Shared → Shared
won_open s = record s { breaker = record s.breaker { state = open_ }; opens = s.opens + 1 }

abbrev pub won_probe : Shared → Shared
won_probe s = record s { breaker = record s.breaker { state = half_open }; probes = s.probes + 1 }

abbrev pub won_close : Shared → Shared
won_close s = record s { breaker = record s.breaker { state = closed }; closes = s.closes + 1 }

abbrev pub set_failures : ℕ → Shared → Shared
set_failures n s = record s { breaker = record s.breaker { failures = n } }

-- What `recordSuccess` does next in the state that it loaded.
abbrev pub success_saw : CbState → Place
success_saw half_open = saw_half_open
success_saw closed = saw_closed
success_saw open_ = idle

abbrev pub probe_saw : CbState → Place
probe_saw open_ = saw_open
probe_saw closed = returned false
probe_saw half_open = returned false

-- One step of a goroutine, at the time where it reads the clock.
unfoldable pub advance : ℕ → Place → Shared → Place × Shared
advance now idle s = (idle, s)
advance now (returned b) s = (returned b, s)
advance now failing s = let n = i32_add s.breaker.failures 1 in (counted n, set_failures n s)
advance now (counted n) s = (failure_saw n s.breaker.state, s)
advance now (failure_saw n prev) s =
    if trips prev n s.breaker.threshold
    then (if is_state s.breaker.state prev then (opened, won_open s) else (idle, s))
    else (idle, s)
advance now opened s = (stamped, record s { breaker = record s.breaker { last_open = now } })
advance now stamped s = (notifying, set_failures 0 s)
advance now notifying s =
    (raising, record s { gauge = record s.gauge { trips_total = i64_inc s.gauge.trips_total } })
advance now raising s = (idle, record s { gauge = record s.gauge { open_gauge = 1 } })
advance now lowering s = (idle, record s { gauge = record s.gauge { open_gauge = 0 } })
advance now succeeding s = (success_saw s.breaker.state, s)
advance now saw_half_open s =
    if is_state s.breaker.state half_open then (closing, won_close s) else (idle, s)
advance now closing s = (lowering, set_failures 0 s)
advance now saw_closed s = (if i32_ltb 0 s.breaker.failures then saw_failures else idle, s)
advance now saw_failures s = (idle, set_failures (i32_pred s.breaker.failures) s)
advance now probing s = (probe_saw s.breaker.state, s)
advance now saw_open s = (loaded s.breaker.last_open, s)
advance now (loaded at) s =
    (if leb now (at + s.breaker.cooldown) then returned false else cooled, s)
advance now cooled s =
    if is_state s.breaker.state open_ then (returned true, won_probe s) else (returned false, s)

abbrev pub is_done : Place → Bool
is_done idle = true
is_done (returned b) = true
is_done failing = false
is_done (counted n) = false
is_done (failure_saw n prev) = false
is_done opened = false
is_done stamped = false
is_done notifying = false
is_done raising = false
is_done lowering = false
is_done succeeding = false
is_done saw_half_open = false
is_done closing = false
is_done saw_closed = false
is_done saw_failures = false
is_done probing = false
is_done saw_open = false
is_done (loaded at) = false
is_done cooled = false

abbrev pub entry : Call → Place
entry (failure now) = failing
entry success = succeeding
entry (probe now) = probing

-- A goroutine that is done with its call makes another one.
abbrev pub call_on : Call → Place → Place
call_on c p = if is_done p then entry c else p

-- What happens next: goroutine `i` calls a method, or takes a step.
pub data Move : Type 0 where
  calls : ℕ → Call → Move
  steps : ℕ → ℕ → Move

-- The goroutine at an index enters a call.
unfoldable pub call_at : ℕ → Call → List Place → List Place
call_at i c [] = []
call_at zero c (p ∷ ps) = call_on c p ∷ ps
call_at (suc i) c (p ∷ ps) = p ∷ call_at i c ps

-- The goroutine at an index takes a step.
unfoldable pub advance_at : ℕ → ℕ → List Place × Shared → List Place × Shared
unfolding advance
advance_at i now ([], s) = ([], s)
advance_at zero now (p ∷ ps, s) = let (p', s') = advance now p s in (p' ∷ ps, s')
advance_at (suc i) now (p ∷ ps, s) = let (ps', s') = advance_at i now (ps, s) in (p ∷ ps', s')

unfoldable pub happen : Move → List Place × Shared → List Place × Shared
unfolding call_at advance_at
happen (calls i c) (ps, s) = (call_at i c ps, s)
happen (steps i now) (ps, s) = advance_at i now (ps, s)

-- The goroutines run in an order of steps that is given.
unfoldable pub interleave : List Move → List Place × Shared → List Place × Shared
unfolding happen
interleave [] w = w
interleave (e ∷ es) w = interleave es (happen e w)
