-- ===== src/RateLimit/Tests.antt =====
-- Runs of the two rate limits, and their theorems there.
use sentrydns.Base.{
  arith, refl, ◌*◌, ◌≡◌, List, [], ◌∷◌, Text, codes, find, insert, delete, text_eq, round,
  round_ratio, nearest, ulp,
}
use sentrydns.RateLimit.{
  GlobalLimiter, ClientState, token, new_global, allow_global, Limiter, new, allow, shard_for,
  shard_at, put_shard, cleanup,
}
use sentrydns.RateLimit.Bucket.{run, at_once, run-at_once}
use sentrydns.RateLimit.Sweep.{Ranges, run_client-cleanup}
use sentrydns.RateLimit.Window.{run_client, run_client-window}

program : Unit {0}
unfolding round round_ratio nearest ulp new_global allow_global run new allow run_client shard_for
    shard_at put_shard find insert text_eq cleanup
program = tt

abbrev bucket : GlobalLimiter
bucket = record { max_rps = 2; tokens = 2 * token; last = 5 }

-- Two queries at once, a third too early, a fourth half a second later.
spends : (run (0 ∷ 0 ∷ 1 ∷ 500000000 ∷ []) bucket).1 ≡ 3
unfolding program
spends = refl

run-at_once_example : (run (at_once 3) (new_global 5 2)).1 ≡ 2
run-at_once_example = run-at_once 5 2 3 (omega arith) (omega arith)

abbrev home : Text
home = codes "10.0.0.1"

abbrev guest : Text
guest = codes "10.0.0.2"

-- A limiter that has seen one query.
abbrev started : Limiter
started = (allow 7 home (new 2)).0

passes :
    ((run_client home (7 ∷ 8 ∷ 9 ∷ []) (new 2)).1 ≡ 2)
    × ((run_client home (7 ∷ 8 ∷ 2000000000 ∷ []) (new 2)).1 ≡ 3)
unfolding program
passes = (refl, refl)

run_client-window_example : (run_client home (8 ∷ 9 ∷ 10 ∷ []) started).1 ≡ 1
unfolding program
run_client-window_example =
    run_client-window home (8 ∷ 9 ∷ 10 ∷ []) started (record { window_start = 7; count = 1 }) refl
      (omega arith) refl (omega arith, (omega arith, (omega arith, tt)))

-- The order of each shard is the shard itself.
abbrev orders : List (List (Text × ClientState))
orders = started.shards

forgets : shard_at (shard_for home) (cleanup 3000000008 orders started).shards ≡ []
unfolding program delete
forgets = refl

-- Only the shard of `home` has a binding.
ranged : Ranges orders started.shards
unfolding program
ranged = (
  tt,
  (
    tt,
    (tt, (tt, (tt, (tt, ((refl, tt), (tt, (tt, (tt, (tt, (tt, (tt, (tt, (tt, (tt, tt)))))))))))))),
  ),
)

-- A sweep three seconds later forgets the client that was seen at the start.
run_client-cleanup_example :
    (run_client home (3000000008 ∷ 3000000009 ∷ []) (cleanup 3000000008 orders started)).1
    ≡ (run_client home (3000000008 ∷ 3000000009 ∷ []) started).1
unfolding program
run_client-cleanup_example =
    run_client-cleanup 3000000008 orders home (3000000008 ∷ 3000000009 ∷ []) started refl
      (omega arith) ranged (omega arith, (omega arith, tt))
