-- ===== src/Breaker/Threads/Wins.antt =====
-- What any number of goroutines that run the breaker's methods at once can bring about.
use sentrydns.Base.{
  ℕ, zero, suc, ◌+◌, ◌%◌, ◌^◌, ◌≤◌, ◌≡◌, refl, List, [], ◌∷◌, arith, if◌then◌else◌, true, All,
}
use sentrydns.Breaker.{open_, half_open, Call, failure, success, probe}
use sentrydns.Breaker.Threads.{
  Place, idle, returned, failing, counted, failure_saw, opened, stamped, notifying, raising,
  lowering, succeeding, saw_half_open, closing, saw_closed, saw_failures, probing, saw_open, loaded,
  cooled, Shared, is_state, is_done, call_on, advance, Move, calls, steps, call_at, advance_at,
  happen, interleave,
}

-- Every opening is followed by at most one probe, and every probe by at most one closing.
pub record IsPaired (s : Shared) : Type 0 where
  pub opens_once : s.opens ≡ s.probes + (if is_state s.breaker.state open_ then 1 else 0)
  pub closes_once : s.closes + (if is_state s.breaker.state half_open then 1 else 0) ≤ s.probes

advance-IsPaired : (now : ℕ) (p : Place) (s : Shared) → IsPaired s → IsPaired (advance now p s).1
unfolding advance
advance-IsPaired now idle s v = v
advance-IsPaired now (returned b) s v = v
advance-IsPaired now failing s v = ground arith
advance-IsPaired now (counted n) s v = v
advance-IsPaired now (failure_saw n prev) s v = ground arith
advance-IsPaired now opened s v = ground arith
advance-IsPaired now stamped s v = ground arith
advance-IsPaired now notifying s v = ground arith
advance-IsPaired now raising s v = ground arith
advance-IsPaired now lowering s v = ground arith
advance-IsPaired now succeeding s v = v
advance-IsPaired now saw_half_open s v = ground arith
advance-IsPaired now closing s v = ground arith
advance-IsPaired now saw_closed s v = v
advance-IsPaired now saw_failures s v = ground arith
advance-IsPaired now probing s v = v
advance-IsPaired now saw_open s v = v
advance-IsPaired now (loaded at) s v = v
advance-IsPaired now cooled s v = ground arith

advance_at-IsPaired :
    (i now : ℕ) (ps : List Place) (s : Shared) → IsPaired s → IsPaired (advance_at i now (ps, s)).1
unfolding advance_at
advance_at-IsPaired i now [] s v = v
advance_at-IsPaired zero now (p ∷ ps) s v = advance-IsPaired now p s v
advance_at-IsPaired (suc i) now (p ∷ ps) s v = advance_at-IsPaired i now ps s v

-- In whatever order any number of goroutines take their steps, the breaker has let through one probe
-- for each time it opened (one less while it is open), and closed again at most once for each probe.
pub interleave-IsPaired :
    (es : List Move) (ps : List Place) (s : Shared)
    → IsPaired s
    → IsPaired (interleave es (ps, s)).1
unfolding interleave happen
interleave-IsPaired [] ps s v = v
interleave-IsPaired (calls i c ∷ es) ps s v = interleave-IsPaired es (call_at i c ps) s v
interleave-IsPaired (steps i now ∷ es) ps s v =
    let (ps', s') = advance_at i now (ps, s) in
    interleave-IsPaired es ps' s' (advance_at-IsPaired i now ps s v)

-- Whether a goroutine has still to count the trip that it has won.
abbrev pub owes : Place → ℕ
owes opened = 1
owes stamped = 1
owes notifying = 1
owes idle = 0
owes (returned b) = 0
owes failing = 0
owes (counted n) = 0
owes (failure_saw n prev) = 0
owes raising = 0
owes lowering = 0
owes succeeding = 0
owes saw_half_open = 0
owes closing = 0
owes saw_closed = 0
owes saw_failures = 0
owes probing = 0
owes saw_open = 0
owes (loaded at) = 0
owes cooled = 0

abbrev pub owed : List Place → ℕ
owed [] = 0
owed (p ∷ ps) = owes p + owed ps

-- The trips that are counted and those that are still owed are all the openings; `more` stands for
-- what other goroutines owe.
abbrev Balanced : ℕ → ℕ → Shared → Type 0
Balanced more due s = (s.gauge.trips_total + due + more) % 2 ^ 64 ≡ s.opens % 2 ^ 64

advance-Balanced :
    (now more : ℕ) (p : Place) (s : Shared)
    → Balanced more (owes p) s
    → Balanced more (owes (advance now p s).0) (advance now p s).1
unfolding advance
advance-Balanced now more idle s v = v
advance-Balanced now more (returned b) s v = v
advance-Balanced now more failing s v = v
advance-Balanced now more (counted n) s v = v
advance-Balanced now more (failure_saw n prev) s v = ground arith
advance-Balanced now more opened s v = v
advance-Balanced now more stamped s v = v
advance-Balanced now more notifying s v = omega (arith, v)
advance-Balanced now more raising s v = v
advance-Balanced now more lowering s v = v
advance-Balanced now more succeeding s v = ground arith
advance-Balanced now more saw_half_open s v = ground arith
advance-Balanced now more closing s v = v
advance-Balanced now more saw_closed s v = ground arith
advance-Balanced now more saw_failures s v = v
advance-Balanced now more probing s v = ground arith
advance-Balanced now more saw_open s v = v
advance-Balanced now more (loaded at) s v = ground arith
advance-Balanced now more cooled s v = ground arith

advance_at-Balanced :
    (i now more : ℕ) (ps : List Place) (s : Shared)
    → Balanced more (owed ps) s
    → Balanced more (owed (advance_at i now (ps, s)).0) (advance_at i now (ps, s)).1
unfolding advance_at
advance_at-Balanced i now more [] s v = v
advance_at-Balanced zero now more (p ∷ ps) s v =
    let w = advance-Balanced now (owed ps + more) p s (omega (arith, v)) in omega (arith, w)
advance_at-Balanced (suc i) now more (p ∷ ps) s v =
    let w = advance_at-Balanced i now (owes p + more) ps s (omega (arith, v)) in omega (arith, w)

owes-call_on : (c : Call) (p : Place) → owes (call_on c p) ≡ owes p
owes-call_on (failure now) p = ground arith
owes-call_on success p = ground arith
owes-call_on (probe now) p = ground arith

owed-call_at : (i : ℕ) (c : Call) (ps : List Place) → owed (call_at i c ps) ≡ owed ps
unfolding call_at
owed-call_at i c [] = refl
owed-call_at zero c (p ∷ ps) = omega (arith, owes-call_on c p)
owed-call_at (suc i) c (p ∷ ps) = omega (arith, owed-call_at i c ps)

interleave-Balanced :
    (es : List Move) (ps : List Place) (s : Shared)
    → Balanced 0 (owed ps) s
    → Balanced 0 (owed (interleave es (ps, s)).0) (interleave es (ps, s)).1
unfolding interleave happen
interleave-Balanced [] ps s v = v
interleave-Balanced (calls i c ∷ es) ps s v =
    interleave-Balanced es (call_at i c ps) s (omega (arith, v, owed-call_at i c ps))
interleave-Balanced (steps i now ∷ es) ps s v =
    let (ps', s') = advance_at i now (ps, s) in
    interleave-Balanced es ps' s' (advance_at-Balanced i now 0 ps s v)

-- A goroutine that is in none of the methods.
abbrev pub IsDone : Place → Type 0
IsDone p = is_done p ≡ true

owed-IsDone : (ps : List Place) → All IsDone ps → owed ps ≡ 0
owed-IsDone [] h = refl
owed-IsDone (p ∷ ps) h = let ih = owed-IsDone ps h.1 in let d = h.0 in ground arith

-- In whatever order any number of goroutines take their steps, no trip is lost and none is counted
-- twice: where all are done at the start and at the end, the trips counter is, modulo 2 ^ 64, the
-- number of times the breaker opened, as it was at the start.
pub interleave-trips :
    (es : List Move) (ps : List Place) (s : Shared)
    → All IsDone ps
    → s.gauge.trips_total % 2 ^ 64 ≡ s.opens % 2 ^ 64
    → All IsDone (interleave es (ps, s)).0
    → (interleave es (ps, s)).1.gauge.trips_total % 2 ^ 64
      ≡ (interleave es (ps, s)).1.opens % 2 ^ 64
interleave-trips es ps s d v d' =
    let w = interleave-Balanced es ps s (omega (arith, v, owed-IsDone ps d)) in
    omega (arith, w, owed-IsDone (interleave es (ps, s)).0 d')
