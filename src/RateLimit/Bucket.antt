-- ===== src/RateLimit/Bucket.antt =====
-- The token bucket of internal/ratelimit/global.go: the burst that it allows.
use sentrydns.Base.{
  arith, refl, sym, ap, ◌∙◌, ℕ, zero, suc, ◌+◌, ◌-◌, ◌*◌, ◌^◌, ◌≤◌, ◌<◌, ◌≡◌, List, [], ◌∷◌,
  if◌then◌else◌, ltb, leb, Bool-cases, inl, inr, round, round_ratio, ulp, nearest, round-exact,
}
use native.Mathlib.Nat.{zero-mul}
use sentrydns.RateLimit.{GlobalLimiter, token, new_global, seconds, refill, allow_global}
use sentrydns.RateLimit.Window.{least}

-- Calls of `Allow`, each some nanoseconds after the one before: the limiter afterwards, and how many
-- were let through.
unfoldable pub run : List ℕ → GlobalLimiter → GlobalLimiter × ℕ
run [] l = (l, 0)
run (elapsed ∷ rest) l =
    let (l', ok) = allow_global (l.last + elapsed) l in
    let (end, passed) = run rest l' in (end, if ok then passed + 1 else passed)

-- This many calls without time between them.
abbrev pub at_once : ℕ → List ℕ
at_once zero = []
at_once (suc n) = 0 ∷ at_once n

-- A bucket that holds this many whole tokens.
abbrev holding : ℕ → ℕ → ℕ → GlobalLimiter
holding m now j = record { max_rps = m; tokens = j * token; last = now }

no_time : (now : ℕ) → now + 0 - now ≡ 0
no_time now = omega arith

zero_seconds : seconds 0 ≡ 0
unfolding seconds round round_ratio ulp nearest
zero_seconds = refl

zero_round : round 0 ≡ 0
unfolding round round_ratio ulp nearest
zero_round = refl

-- No time brings no tokens, and whole tokens are not rounded.
refill-at_once : (m now j : ℕ) → j ≤ m → m < 2 ^ 53 → refill (now + 0) (holding m now j) ≡ j * token
unfolding refill
refill-at_once m now j le small =
    let e = round-exact 82 j (omega (arith, le, small)) in
    let z : round (0 * m) ≡ 0 = ap round (zero-mul m) ∙ zero_round in
    rw (no_time now, zero_seconds, z) (ground (arith, e))

allow_global-at_once :
    (m now j : ℕ)
    → 0 < m
    → j ≤ m
    → m < 2 ^ 53
    → allow_global (now + 0) (holding m now j) ≡ (holding m (now + 0) (j - 1), ltb 0 j)
unfolding allow_global
allow_global-at_once m now j positive le small =
    let e = refill-at_once m now j le small in
    let f = round-exact 82 (j - 1) (omega (arith, le, small)) in
    let g : j * token - token ≡ (j - 1) * token = omega arith in
    let f' : round (j * token - token) ≡ (j - 1) * token = ap round g ∙ f in
    rw (allow_global, e)
      (elim (Bool-cases (leb token (j * token))) [
        | inl enough ↦ ground (arith, f')
        | inr less ↦ ground (arith, positive)
      ])

run-at_once_from :
    (m now j n : ℕ) → 0 < m → j ≤ m → m < 2 ^ 53 → (run (at_once n) (holding m now j)).1 ≡ least n j
unfolding run
run-at_once_from m now j zero p le small = (ground arith)
run-at_once_from m now j (suc n) p le small =
    let ih = run-at_once_from m (now + 0) (j - 1) n p (omega (arith, le)) small in
    rw (allow_global-at_once m now j p le small) (ground (arith, ih))

round_whole : (m : ℕ) → m < 2 ^ 53 → round m ≡ m
round_whole m small =
    let one : m * 2 ^ 0 ≡ m = omega arith in sym (ap round one) ∙ round-exact 0 m small ∙ one

new_global-holding : (now m : ℕ) → m < 2 ^ 53 → new_global now m ≡ holding m now m
unfolding new_global
new_global-holding now m small =
    ap (λ (k : ℕ). record { max_rps = k; tokens = k * token; last = now }) (round_whole m small)

-- With a limit of m queries a second, a new bucket lets through exactly m of the queries that come at the
-- moment of its start, or all of them if they are fewer: no time brings no tokens, and the float64
-- operations do not round whole tokens. The limit must be positive and below 2 ^ 53.
pub run-at_once :
    (now m n : ℕ) → 0 < m → m < 2 ^ 53 → (run (at_once n) (new_global now m)).1 ≡ least n m
run-at_once now m n positive small =
    ap (λ l. (run (at_once n) l).1) (new_global-holding now m small)
    ∙ run-at_once_from m now m n positive (omega arith) small
