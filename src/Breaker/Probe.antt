-- ===== src/Breaker/Probe.antt =====
-- How an open breaker lets one query through, and closes again.
use sentrydns.Base.{ℕ, ◌+◌, ◌<◌, ◌≤◌, ◌≡◌, refl, ◌↔◌, ◌⊎◌, true, some, List, [], ◌∷◌, All, arith}
use sentrydns.Breaker.{
  closed, open_, half_open, Breaker, record_failure, record_success, try_probe, Call, failure,
  success, probe, step, run,
}

-- A call that does not probe after the cooldown has passed.
abbrev pub Early : Breaker → Call → Type 0
Early cb (failure now) = Unit
Early cb success = Unit
Early cb (probe now) = now ≤ cb.last_open + cb.cooldown

step-open :
    (cb : Breaker) (c : Call)
    → cb.state ≡ open_
    → Early cb c
    → ((step cb c).state ≡ open_)
      × ((step cb c).last_open ≡ cb.last_open)
      × ((step cb c).cooldown ≡ cb.cooldown)
unfolding step record_failure record_success try_probe
step-open cb (failure now) o h = ground arith
step-open cb success o h = ground arith
step-open cb (probe now) o h = ground arith

All-Early :
    (cb cb' : Breaker) (cs : List Call)
    → All (Early cb) cs
    → cb'.last_open ≡ cb.last_open
    → cb'.cooldown ≡ cb.cooldown
    → All (Early cb') cs
All-Early cb cb' [] h l d = tt
All-Early cb cb' (failure n ∷ cs) h l d = (tt, All-Early cb cb' cs h.1 l d)
All-Early cb cb' (success ∷ cs) h l d = (tt, All-Early cb cb' cs h.1 l d)
All-Early cb cb' (probe n ∷ cs) h l d = (omega (arith, h.0), All-Early cb cb' cs h.1 l d)

-- An open breaker stays open, with the time at which it opened, through any failures, successes and
-- probes, as long as no probe comes later than the cooldown after that time.
pub run-open :
    (cb : Breaker) (cs : List Call)
    → cb.state ≡ open_
    → All (Early cb) cs
    → ((run cb cs).state ≡ open_) × ((run cb cs).last_open ≡ cb.last_open)
unfolding run
run-open cb [] o h = (o, refl)
run-open cb (c ∷ cs) o h =
    let (o', l, d) = step-open cb c o h.0 in
    let ih = run-open (step cb c) cs o' (All-Early cb (step cb c) cs h.1 l d) in
    (ih.0, ground arith)

-- A probe is let through exactly when the breaker is open and more than the cooldown has passed
-- since it opened; the breaker is then half-open, and otherwise unchanged.
try_probe_iff :
    (cb : Breaker) (now : ℕ)
    → (((try_probe now cb).1 ≡ true) ↔ ((cb.state ≡ open_) × (cb.last_open + cb.cooldown < now)))
      × (((try_probe now cb).0 ≡ record cb { state = half_open }) ⊎ ((try_probe now cb).0 ≡ cb))
unfolding try_probe
try_probe_iff cb now = ground arith

-- From half-open the outcome of the probe decides: a success closes the breaker with a count of 0,
-- a failure opens it again from that time on, whatever the count and the threshold are.
half_open_outcome :
    (cb : Breaker) (now : ℕ)
    → cb.state ≡ half_open
    → (record_success cb ≡ (record cb { state = closed; failures = 0 }, some closed))
      × (record_failure now cb
          ≡ (record cb { state = open_; failures = 0; last_open = now }, some open_))
unfolding record_success record_failure
half_open_outcome cb now h = ground arith
