-- ===== src/Breaker/Threads/Alone.antt =====
-- A call that no other goroutine interrupts is the one step that the breaker's module describes.
use sentrydns.Base.{
  ℕ, zero, suc, ◌≡◌, refl, ap, ◌∙◌, true, List, [], ◌∷◌, ◌++◌, arith, if◌then◌else◌, length,
}
use sentrydns.Breaker.{
  Breaker, Call, failure, success, probe, record_failure, record_success, try_probe, watched_step,
  on_state_change,
}
use sentrydns.Breaker.Threads.{
  Place, idle, returned, failing, succeeding, probing, Shared, is_done, call_on, entry, advance,
  Move, calls, steps, call_at, advance_at, happen, interleave,
}

-- A goroutine that takes so many steps in a row.
unfoldable pub onward : ℕ → ℕ → Place × Shared → Place × Shared
unfolding advance
onward now zero w = w
onward now (suc k) (p, s) = onward now k (advance now p s)

-- Where a call leaves its goroutine.
abbrev pub outcome : Call → Breaker → Place
outcome (failure now) b = idle
outcome success b = idle
outcome (probe now) b = returned (try_probe now b).1

abbrev pub clock : Call → ℕ
clock (failure now) = now
clock success = 0
clock (probe now) = now

abbrev IsStep : Call → Shared → Place × Shared → Type 0
IsStep c s (p, s') =
    (p ≡ outcome c s.breaker) × ((s'.breaker, s'.gauge) ≡ watched_step (s.breaker, s.gauge) c)

onward-failure : (now : ℕ) (s : Shared) → IsStep (failure now) s (onward now 7 (failing, s))
unfolding onward advance record_failure watched_step on_state_change
onward-failure now s = ground arith

onward-success : (s : Shared) → IsStep success s (onward 0 7 (succeeding, s))
unfolding onward advance record_success watched_step on_state_change
onward-success s = ground arith

onward-probe : (now : ℕ) (s : Shared) → IsStep (probe now) s (onward now 7 (probing, s))
unfolding onward advance try_probe watched_step on_state_change
onward-probe now s = ground arith

onward-entry : (c : Call) (s : Shared) → IsStep c s (onward (clock c) 7 (entry c, s))
onward-entry (failure now) s = onward-failure now s
onward-entry success s = onward-success s
onward-entry (probe now) s = onward-probe now s

-- One goroutine takes steps in a row, at one time.
abbrev pub turns : ℕ → ℕ → ℕ → List Move
turns i now zero = []
turns i now (suc k) = steps i now ∷ turns i now k

-- A whole call, from its start on.
abbrev pub alone : ℕ → Call → List Move
alone i c = calls i c ∷ turns i (clock c) 7

call_at-length :
    (c : Call) (front : List Place) (p : Place) (back : List Place)
    → call_at (length front) c (front ++ p ∷ back) ≡ front ++ call_on c p ∷ back
unfolding call_at
call_at-length c [] p back = refl
call_at-length c (q ∷ front) p back = ap (λ ps. q ∷ ps) (call_at-length c front p back)

advance_at-length :
    (now : ℕ) (front : List Place) (p : Place) (back : List Place) (s : Shared)
    → advance_at (length front) now (front ++ p ∷ back, s)
      ≡ (front ++ (advance now p s).0 ∷ back, (advance now p s).1)
unfolding advance_at
advance_at-length now [] p back s = refl
advance_at-length now (q ∷ front) p back s =
    ap (λ w. (q ∷ w.0, w.1)) (advance_at-length now front p back s)

interleave-turns :
    (now k : ℕ) (front : List Place) (p : Place) (back : List Place) (s : Shared)
    → interleave (turns (length front) now k) (front ++ p ∷ back, s)
      ≡ (front ++ (onward now k (p, s)).0 ∷ back, (onward now k (p, s)).1)
unfolding interleave happen onward
interleave-turns now zero front p back s = refl
interleave-turns now (suc k) front p back s =
    ap (interleave (turns (length front) now k)) (advance_at-length now front p back s)
    ∙ interleave-turns now k front (advance now p s).0 back (advance now p s).1

-- Where no other goroutine takes a step during a call, the seven steps of the call change the breaker
-- and the gauge just as the method as one step does; they leave its answer and no other goroutine moved.
pub interleave-alone :
    (c : Call) (front : List Place) (p : Place) (back : List Place) (s : Shared)
    → is_done p ≡ true
    → let (ps', s') = interleave (alone (length front) c) (front ++ p ∷ back, s) in
      ((s'.breaker, s'.gauge) ≡ watched_step (s.breaker, s.gauge) c)
      × (ps' ≡ front ++ outcome c s.breaker ∷ back)
unfolding interleave happen
interleave-alone c front p back s d =
    let i = length front in
    let now = clock c in
    let entered =
      call_at-length c front p back ∙ ap (λ b. front ++ (if b then entry c else p) ∷ back) d in
    let e =
      ap (λ ps. interleave (turns i now 7) (ps, s)) entered
      ∙ interleave-turns now 7 front (entry c) back s in
    let (at, does) = onward-entry c s in
    (ap (λ w. (w.1.breaker, w.1.gauge)) e ∙ does, ap (λ w. w.0) e ∙ ap (λ q. front ++ q ∷ back) at)
