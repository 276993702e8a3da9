-- ===== src/Breaker/Tests.antt =====
-- Runs of the circuit breaker, and its theorems at concrete breakers.
use sentrydns.Base.{◌≡◌, refl, inl, true, false, ◌%◌, ◌^◌, List, [], ◌∷◌, ◌++◌, map, arith}
use sentrydns.Breaker.{
  Breaker, closed, open_, half_open, Call, failure, success, probe, Gauge, record_failure,
  record_success, try_probe, run, watched_run, watched_step, is_open,
}
use sentrydns.Breaker.Threads.{idle, returned, opened, Shared, Move, calls, steps, interleave}
use sentrydns.Breaker.Threads.Wins.{IsPaired, interleave-IsPaired, interleave-trips}
use sentrydns.Breaker.Threads.Alone.{alone, turns, interleave-alone}
use sentrydns.Breaker.Threads.Races.{two_idle, early_probe, late_notice, overtaken}
use sentrydns.Breaker.Trip.{IsValid, run-failures_trip, Agrees, watched_run-Agrees}

abbrev fresh : Breaker
fresh = record { state = closed; failures = 0; threshold = 3; last_open = 0; cooldown = 30 }

abbrev tripped : Breaker
tripped = record fresh { state = open_; last_open = 7 }

abbrev half : Breaker
half = record tripped { state = half_open }

abbrev quiet : Gauge
quiet = record { trips_total = 0; open_gauge = 0 }

abbrev history : List Call
history = failure 1 ∷ success ∷ failure 2 ∷ failure 3 ∷ failure 7 ∷ probe 20 ∷ failure 21 ∷ []

history_runs : run fresh history ≡ record tripped { failures = 1 }
unfolding run record_failure record_success try_probe
history_runs = refl

recovers : run fresh (history ++ probe 38 ∷ success ∷ []) ≡ record fresh { last_open = 7 }
unfolding run record_failure record_success try_probe
recovers = refl

fresh-IsValid : IsValid fresh
fresh-IsValid = record { counted = λ _. inl refl; small = λ _. omega arith; word = omega arith }

run-failures_trip_example :
    ((run fresh (map failure (1 ∷ 2 ∷ []))).state ≡ closed)
    × (run fresh (map failure (1 ∷ 2 ∷ []) ++ failure 7 ∷ []) ≡ tripped)
run-failures_trip_example = run-failures_trip fresh (1 ∷ 2 ∷ []) 7 refl (omega arith) refl

watched_run-Agrees_example : Agrees (watched_run (fresh, quiet) history)
unfolding is_open
watched_run-Agrees_example = watched_run-Agrees (fresh, quiet) history refl

-- One failure below the threshold, long after the last opening.
abbrev edge : Shared
edge = record {
  breaker = record fresh { failures = 2 };
  gauge = quiet;
  opens = 0;
  probes = 0;
  closes = 0;
}

abbrev once : Shared
once = record edge { breaker = record fresh { failures = 1 } }

edge-IsPaired : IsPaired edge
edge-IsPaired = record { opens_once = refl; closes_once = omega arith }

-- Both goroutines are let ask for a probe, and one of them gets it.
abbrev contest : List Move
contest =
    alone 0 (failure 7)
    ++ calls 0 (probe 50) ∷ calls 1 (probe 50) ∷ turns 0 50 3
    ++ turns 1 50 4
    ++ steps 0 50 ∷ []

contest_runs : (interleave contest (two_idle, edge)).0 ≡ returned false ∷ returned true ∷ []
unfolding interleave
contest_runs = refl

interleave-IsPaired_example : IsPaired (interleave contest (two_idle, edge)).1
interleave-IsPaired_example = interleave-IsPaired contest two_idle edge edge-IsPaired

interleave-trips_example :
    (interleave contest (two_idle, edge)).1.gauge.trips_total % 2 ^ 64
    ≡ (interleave contest (two_idle, edge)).1.opens % 2 ^ 64
unfolding interleave
interleave-trips_example =
    interleave-trips contest two_idle edge (refl, (refl, tt)) refl (refl, (refl, tt))

interleave-alone_example :
    let (ps', s') = interleave (alone 1 (failure 7)) (opened ∷ idle ∷ [], edge) in
    ((s'.breaker, s'.gauge) ≡ watched_step (edge.breaker, edge.gauge) (failure 7))
    × (ps' ≡ opened ∷ idle ∷ [])
interleave-alone_example = interleave-alone (failure 7) (opened ∷ []) idle [] edge refl

overtaken_example :
    let (ps, t) = interleave (late_notice 31) (two_idle, edge) in
    ((interleave (early_probe 31) (two_idle, edge)).0 ≡ opened ∷ returned true ∷ [])
    × (ps ≡ two_idle)
    × (t.breaker.state ≡ closed)
    × (t.gauge.open_gauge ≡ 1)
overtaken_example = overtaken edge 31 refl refl (omega arith)
