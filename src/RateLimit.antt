-- ===== src/RateLimit.antt =====
-- The two rate limits of internal/ratelimit: one for all clients together (global.go) and one for each
-- client (ratelimit.go). A limit that is not positive is 0.
pub mod Bucket
pub mod Window
pub mod Sweep
mod Tests
use sentrydns.Base.{
  ℕ, zero, suc, ◌+◌, ◌-◌, ◌*◌, ◌%◌, ◌^◌, Bool, true, false, not, ◌&&◌, Option, none, some, List, [],
  ◌/◌, ◌∷◌, ◌==◌, ltb, leb, round, round_ratio, if◌then◌else◌, Text, Dict, find, insert, delete,
}

-- The bucket of global.go. The float64 of a number of tokens, or of seconds, is a whole number of
-- 2 ^ -82: no less than a nanosecond is added to it, whose last bit is worth that much. Every operation
-- rounds, none is fused with the next.
pub record GlobalLimiter : Type 0 where
  pub max_rps : ℕ
  pub tokens : ℕ
  pub last : ℕ

abbrev pub token : ℕ
token = 2 ^ 82

unfoldable pub new_global : ℕ → ℕ → GlobalLimiter
new_global now max_rps = record {
  max_rps = round max_rps;
  tokens = round max_rps * token;
  last = now;
}

-- `Duration.Seconds`, of a number of nanoseconds.
unfoldable pub seconds : ℕ → ℕ
seconds d = round (d / 1000000000 * token + round_ratio (d % 1000000000 * token) 1000000000)

-- `math.Min(l.maxRPS, l.tokens+elapsed*l.maxRPS)`; the clock of `last` is monotonic.
unfoldable pub refill : ℕ → GlobalLimiter → ℕ
unfolding seconds
refill now l =
    let filled = round (l.tokens + round (seconds (now - l.last) * l.max_rps)) in
    if ltb (l.max_rps * token) filled then l.max_rps * token else filled

unfoldable pub allow_global : ℕ → GlobalLimiter → GlobalLimiter × Bool
unfolding refill
allow_global now l =
    let tokens = refill now l in
    if l.max_rps == 0
    then (l, true)
    else if leb token tokens
    then (record l { tokens = round (tokens - token); last = now }, true)
    else (record l { tokens = tokens; last = now }, false)

-- The window of one client of ratelimit.go.
pub record ClientState : Type 0 where
  pub window_start : ℕ
  pub count : ℕ

pub record Limiter : Type 0 where
  pub shards : List (Dict ClientState)
  pub max_rps : ℕ
  pub window : ℕ

abbrev pub no_shards : ℕ → List (Dict ClientState)
no_shards zero = []
no_shards (suc n) = [] ∷ no_shards n

unfoldable pub new : ℕ → Limiter
new max_rps = record { shards = no_shards 16; max_rps = max_rps; window = 1000000000 }

-- The loop of `shardFor`; the text of an address is ASCII, where a rune is a byte.
unfoldable pub hash : ℕ → Text → ℕ
hash h [] = h
hash h (c ∷ s) = hash ((h * 31 + c) % 2 ^ 64) s

unfoldable pub shard_for : Text → ℕ
unfolding hash
shard_for ip = hash 0 ip % 16

-- `l.shards[i]`, and the same with a new value; the index is below the number of shards.
unfoldable pub shard_at : ℕ → List (Dict ClientState) → Dict ClientState
shard_at i [] = []
shard_at zero (m ∷ ms) = m
shard_at (suc i) (m ∷ ms) = shard_at i ms

unfoldable pub put_shard : ℕ → Dict ClientState → List (Dict ClientState) → List (Dict ClientState)
put_shard i new [] = []
put_shard zero new (m ∷ ms) = new ∷ ms
put_shard (suc i) new (m ∷ ms) = m ∷ put_shard i new ms

-- The decision on one client: its state afterwards, and whether the query is let through.
unfoldable pub admit : ℕ → ℕ → ℕ → Option ClientState → ClientState × Bool
admit max_rps window now none = (record { window_start = now; count = 1 }, true)
admit max_rps window now (some cs) =
    if ltb window (now - cs.window_start)
    then (record { window_start = now; count = 1 }, true)
    else (record cs { count = cs.count + 1 }, leb (cs.count + 1) max_rps)

unfoldable pub allow : ℕ → Text → Limiter → Limiter × Bool
unfolding shard_for admit
allow now ip l =
    let i = shard_for ip in
    let clients = shard_at i l.shards in
    let (cs, ok) = admit l.max_rps l.window now (find ip clients) in
    if l.max_rps == 0
    then (l, true)
    else (record l { shards = put_shard i (insert ip cs clients) l.shards }, ok)

-- The loop of `cleanup` over one shard, in the order of its `range`.
unfoldable pub clean_shard : ℕ → ℕ → List (Text × ClientState) → Dict ClientState → Dict ClientState
clean_shard window now [] clients = clients
clean_shard window now ((ip, cs) ∷ rest) clients =
    clean_shard window now rest
      (if ltb (2 * window) (now - cs.window_start) then delete ip clients else clients)

-- And over the shards, each with its order.
unfoldable pub clean_all :
    ℕ → ℕ → List (List (Text × ClientState)) → List (Dict ClientState) → List (Dict ClientState)
unfolding clean_shard
clean_all window now orders [] = []
clean_all window now [] (m ∷ ms) = m ∷ ms
clean_all window now (o ∷ os) (m ∷ ms) = clean_shard window now o m ∷ clean_all window now os ms

unfoldable pub cleanup : ℕ → List (List (Text × ClientState)) → Limiter → Limiter
unfolding clean_all
cleanup now orders l = record l { shards = clean_all l.window now orders l.shards }
