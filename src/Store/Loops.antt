-- ===== src/Store/Loops.antt =====
-- The goroutines that the store starts: persistFlusher and that of StartCleanup, each with what its select
-- takes, one after the other.
use sentrydns.Base.{
  ◌*◌, ℕ, if◌then◌else◌, ◌≡◌, refl, subst, sym, Bool, true, false, Option, none, some, List, [],
  ◌∷◌, ◌++◌, ap, Text, All,
}
use sentrydns.StateFile.{Json, SaveCalls}
use sentrydns.Store.{Store, flush_persist, cleanup, run_cleanup, wait_healthy}
use sentrydns.Store.Durability.{Reach, next, cleaning}

-- The ticks, with the outcome of opening the file for each, and the flush at the stop if that has come.
unfoldable pub persist_flusher : List Bool → Option Bool → Store → Store
unfolding flush_persist
persist_flusher [] none s = s
persist_flusher [] (some opened) s = flush_persist opened s
persist_flusher (opened ∷ ticks) last s = persist_flusher ticks last (flush_persist opened s)

-- A cleanup that the timer starts: its arguments, and the time at which it ends.
pub record Round : Type 0 where
  pub calls : SaveCalls
  pub written : Bool
  pub now : ℕ
  pub checks : List Bool
  pub verdicts : Option (List (Text × Bool))
  pub ended : ℕ

pub data Wake : Type 0 where
  fires : Round → Wake
  stops : Wake

-- 24 hours in nanoseconds where there is no schedule.
abbrev pub next_delay : Option (ℕ → ℕ) → ℕ → ℕ
next_delay none now = 86400 * 1000000000
next_delay (some schedule) now = schedule now

-- The delays that are waited for, with the store.
unfoldable pub start_cleanup : Json → Option (ℕ → ℕ) → ℕ → List Wake → Store → List ℕ × Store
unfolding run_cleanup
start_cleanup json schedule delay [] s = (delay ∷ [], s)
start_cleanup json schedule delay (stops ∷ wakes) s = (delay ∷ [], s)
start_cleanup json schedule delay (fires r ∷ wakes) s =
    let cleaned = run_cleanup json r.calls r.written r.now r.checks r.verdicts s in
    let (delays, t) = start_cleanup json schedule (next_delay schedule r.ended) wakes cleaned in
    (delay ∷ delays, t)

-- Nothing happens after the stop.
start_cleanup-stops :
    (json : Json) (schedule : Option (ℕ → ℕ)) (delay : ℕ) (wakes later : List Wake) (s : Store)
    → start_cleanup json schedule delay (wakes ++ stops ∷ later) s
      ≡ start_cleanup json schedule delay (wakes ++ stops ∷ []) s
unfolding start_cleanup
start_cleanup-stops json schedule delay [] later s = refl
start_cleanup-stops json schedule delay (stops ∷ wakes) later s = refl
start_cleanup-stops json schedule delay (fires r ∷ wakes) later s =
    ap (λ w. (delay ∷ w.0, w.1))
      (start_cleanup-stops json schedule (next_delay schedule r.ended) wakes later
        (run_cleanup json r.calls r.written r.now r.checks r.verdicts s))

-- The learned file can be written.
abbrev pub IsWritten : Wake → Type 0
IsWritten stops = Unit
IsWritten (fires r) = r.written ≡ true

if-Reach :
    (before : Store) (b : Bool) (s t : Store)
    → Reach before s
    → Reach before t
    → Reach before (if b then s else t)
if-Reach before true s t k l = k
if-Reach before false s t k l = l

run_cleanup-Reach :
    (json : Json) (calls : SaveCalls) (now : ℕ) (checks : List Bool)
    (verdicts : Option (List (Text × Bool))) (before s : Store)
    → Reach before s
    → Reach before (run_cleanup json calls true now checks verdicts s)
unfolding run_cleanup
run_cleanup-Reach json calls now checks none before s k = k
run_cleanup-Reach json calls now checks (some verdicts) before s k =
    if-Reach before (wait_healthy 1 checks).1 (cleanup json calls true now verdicts s) s
      (next k (cleaning s json calls now verdicts)) k

-- What the cleanups do one after the other is made of the store's operations.
pub start_cleanup-Reach :
    (json : Json) (schedule : Option (ℕ → ℕ)) (delay : ℕ) (wakes : List Wake) (before s : Store)
    → All IsWritten wakes
    → Reach before s
    → Reach before (start_cleanup json schedule delay wakes s).1
unfolding start_cleanup
start_cleanup-Reach json schedule delay [] before s h k = k
start_cleanup-Reach json schedule delay (stops ∷ wakes) before s h k = k
start_cleanup-Reach json schedule delay (fires r ∷ wakes) before s (w, h) k =
    start_cleanup-Reach json schedule (next_delay schedule r.ended) wakes before
      (run_cleanup json r.calls r.written r.now r.checks r.verdicts s) h
      (subst (λ b. Reach before (run_cleanup json r.calls b r.now r.checks r.verdicts s)) (sym w)
        (run_cleanup-Reach json r.calls r.now r.checks r.verdicts before s k))
