-- ===== src/Breaker/Trip.antt =====
-- When the breaker opens, what its failure count can be, and the gauge that reports it.
use sentrydns.Base.{
  ℕ, ◌+◌, ◌^◌, ◌<◌, ◌≡◌, refl, ◌∙◌, ap, ◌⊎◌, true, List, [], ◌∷◌, map, ◌++◌, length, arith, i32_ltb,
  if◌then◌else◌,
}
use sentrydns.Breaker.{
  closed, open_, Breaker, record_failure, record_success, try_probe, is_open, Gauge,
  on_state_change, Call, failure, success, probe, step, run, watched_step, watched_run,
}

-- While the breaker is closed its count is below the threshold, or 0 where the threshold is not
-- positive.
pub record IsValid (cb : Breaker) : Type 0 where
  pub counted : cb.state ≡ closed → (cb.failures ≡ 0) ⊎ (i32_ltb cb.failures cb.threshold ≡ true)
  pub small : cb.state ≡ closed → cb.failures < 2 ^ 31
  pub word : cb.threshold < 2 ^ 32

step-IsValid : (cb : Breaker) (c : Call) → IsValid cb → IsValid (step cb c)
unfolding step record_failure record_success try_probe
step-IsValid cb (failure now) v = ground arith
step-IsValid cb success v = ground arith
step-IsValid cb (probe now) v = ground arith

-- Any calls of the breaker's methods keep the failure count of a closed breaker below its
-- threshold (or 0 where that is not positive), and below 2 ^ 31, so that it never turns negative.
run-IsValid : (cb : Breaker) (cs : List Call) → IsValid cb → IsValid (run cb cs)
unfolding run
run-IsValid cb [] v = v
run-IsValid cb (c ∷ cs) v = run-IsValid (step cb c) cs (step-IsValid cb c v)

-- Failures that do not reach the threshold are counted, and nothing else changes.
run-failures :
    (cb : Breaker) (ts : List ℕ)
    → cb.state ≡ closed
    → cb.threshold < 2 ^ 31
    → cb.failures + length ts < cb.threshold
    → run cb (map failure ts) ≡ record cb { failures = cb.failures + length ts }
unfolding run record_failure
run-failures cb [] c t h = ground arith
run-failures cb (now ∷ ts) c t h =
    let cb' : Breaker = record cb { failures = cb.failures + 1 } in
    let e : (record_failure now cb).0 ≡ cb' = ground arith in
    let ih = run-failures cb' ts c t (omega arith) in
    ap (λ c. run c (map failure ts)) e ∙ (ih ∙ ap (λ n. record cb { failures = n }) (omega arith))

run-append : (cb : Breaker) (cs ds : List Call) → run cb (cs ++ ds) ≡ run (run cb cs) ds
unfolding run
run-append cb [] ds = refl
run-append cb (c ∷ cs) ds = run-append (step cb c) cs ds

-- A closed breaker with a positive threshold stays closed as long as its count and the failures in
-- a row stay below the threshold, and opens at the failure that reaches it: with the time of that
-- failure noted and the count back at 0.
pub run-failures_trip :
    (cb : Breaker) (ts : List ℕ) (now : ℕ)
    → cb.state ≡ closed
    → cb.threshold < 2 ^ 31
    → cb.failures + length ts + 1 ≡ cb.threshold
    → ((run cb (map failure ts)).state ≡ closed)
      × (run cb (map failure ts ++ failure now ∷ [])
          ≡ record cb { state = open_; failures = 0; last_open = now })
unfolding run step record_failure
run-failures_trip cb ts now c t h =
    let e = run-failures cb ts c t (omega arith) in
    (ground (arith, e), rw (run-append, e) (ground arith))

-- The gauge is 1 exactly while the breaker is open or half-open, and 0 while it is closed.
abbrev pub Agrees : Breaker × Gauge → Type 0
Agrees (cb, g) = g.open_gauge ≡ (if is_open cb then 1 else 0)

watched_step-Agrees : (s : Breaker × Gauge) (c : Call) → Agrees s → Agrees (watched_step s c)
unfolding watched_step record_failure record_success try_probe is_open on_state_change
watched_step-Agrees (cb, g) (failure now) h = ground arith
watched_step-Agrees (cb, g) success h = ground arith
watched_step-Agrees (cb, g) (probe now) h = ground arith

-- After any calls that come one after the other, no two of them at once, the gauge that `onStateChange`
-- writes agrees with the breaker's state if it did before: it is 1
-- while the breaker is open or half-open and 0 while it is closed.
pub watched_run-Agrees :
    (s : Breaker × Gauge) (cs : List Call) → Agrees s → Agrees (watched_run s cs)
unfolding watched_run
watched_run-Agrees s [] h = h
watched_run-Agrees s (c ∷ cs) h =
    watched_run-Agrees (watched_step s c) cs (watched_step-Agrees s c h)
