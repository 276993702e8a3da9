-- ===== src/RateLimit/Window.antt =====
-- The windows of internal/ratelimit/ratelimit.go: how many queries of one client pass in a window, and
-- that clients do not share their counts.
use sentrydns.Base.{
  arith, refl, ℕ, zero, suc, ◌+◌, ◌-◌, ◌≤◌, ◌≡◌, ◌≢◌, true, false, Option, some, List, [], ◌∷◌,
  ◌==◌, leb, if◌then◌else◌, Text, Dict, find, insert, find-insert, text_eq, text_eq_refl, All,
  length, ap, sym, ◌∙◌, subst, ◌<◌,
}
use sentrydns.RateLimit.{ClientState, Limiter, shard_for, shard_at, put_shard, admit, allow}

-- What the limiter knows of a client.
abbrev pub client : Text → Limiter → Option ClientState
client ip l = find ip (shard_at (shard_for ip) l.shards)

shard_at-put_same :
    (i : ℕ) (m : Dict ClientState) (ms : List (Dict ClientState))
    → i < length ms
    → shard_at i (put_shard i m ms) ≡ m
unfolding shard_at put_shard
shard_at-put_same i m [] h = ground arith
shard_at-put_same zero m (x ∷ xs) h = refl
shard_at-put_same (suc i) m (x ∷ xs) h = shard_at-put_same i m xs (omega arith)

-- A new state of one client does not show at another one, in the same shard or not.
find-put_shard :
    (i j : ℕ) (ip other : Text) (cs : ClientState) (ms : List (Dict ClientState))
    → text_eq ip other ≡ false
    → find other (shard_at j (put_shard i (insert ip cs (shard_at i ms)) ms))
      ≡ find other (shard_at j ms)
unfolding shard_at put_shard
find-put_shard i j ip other cs [] h = refl
find-put_shard zero zero ip other cs (x ∷ xs) h = let y = find-insert ip other cs x in ground arith
find-put_shard zero (suc j) ip other cs (x ∷ xs) h = refl
find-put_shard (suc i) zero ip other cs (x ∷ xs) h = refl
find-put_shard (suc i) (suc j) ip other cs (x ∷ xs) h = find-put_shard i j ip other cs xs h

length-put_shard :
    (i : ℕ) (m : Dict ClientState) (ms : List (Dict ClientState))
    → length (put_shard i m ms) ≡ length ms
unfolding put_shard
length-put_shard i m [] = refl
length-put_shard zero m (x ∷ xs) = refl
length-put_shard (suc i) m (x ∷ xs) = ap (λ (n : ℕ). suc n) (length-put_shard i m xs)

shard_for_lt : (ip : Text) → shard_for ip < 16
unfolding shard_for
shard_for_lt ip = omega arith

-- As `New` makes it.
abbrev pub HasShards : Limiter → Type 0
HasShards l = length l.shards ≡ 16

pub client-allow :
    (now : ℕ) (ip : Text) (l : Limiter)
    → HasShards l
    → l.max_rps ≢ 0
    → client ip (allow now ip l).0 ≡ some (admit l.max_rps l.window now (client ip l)).0
unfolding allow
client-allow now ip l s h =
    let cs = (admit l.max_rps l.window now (client ip l)).0 in
    let m = shard_at (shard_for ip) l.shards in
    let n = shard_for_lt ip in
    let x = shard_at-put_same (shard_for ip) (insert ip cs m) l.shards (omega arith) in
    let y = find-insert ip ip cs m in let z = text_eq_refl ip in ground arith

client-allow_other :
    (now : ℕ) (ip other : Text) (l : Limiter)
    → text_eq ip other ≡ false
    → client other (allow now ip l).0 ≡ client other l
unfolding allow
client-allow_other now ip other l h =
    let cs = (admit l.max_rps l.window now (client ip l)).0 in
    let x = find-put_shard (shard_for ip) (shard_for other) ip other cs l.shards h in ground arith

pub allow-decision :
    (now : ℕ) (ip : Text) (l : Limiter)
    → (allow now ip l).1
      ≡ (if l.max_rps == 0 then true else (admit l.max_rps l.window now (client ip l)).1)
unfolding allow
allow-decision now ip l = ground arith

pub allow-kept :
    (now : ℕ) (ip : Text) (l : Limiter)
    → ((allow now ip l).0.max_rps ≡ l.max_rps)
      × ((allow now ip l).0.window ≡ l.window)
      × (length (allow now ip l).0.shards ≡ length l.shards)
unfolding allow
allow-kept now ip l =
    let cs = (admit l.max_rps l.window now (client ip l)).0 in
    let x =
      length-put_shard (shard_for ip) (insert ip cs (shard_at (shard_for ip) l.shards)) l.shards in
    (ground arith, ground arith, ground arith)

-- A query of one client does not change whether another one is let through, at any time.
allow-others :
    (now later : ℕ) (ip other : Text) (l : Limiter)
    → text_eq ip other ≡ false
    → (allow later other (allow now ip l).0).1 ≡ (allow later other l).1
allow-others now later ip other l h =
    let a = allow-decision later other l in
    let b = allow-decision later other (allow now ip l).0 in
    let c = client-allow_other now ip other l h in
    let k = allow-kept now ip l in b ∙ rw (k.0, k.1, c) (sym a)

-- Queries of one client at some times: the limiter afterwards, and how many were let through.
unfoldable pub run_client : Text → List ℕ → Limiter → Limiter × ℕ
run_client ip [] l = (l, 0)
run_client ip (now ∷ rest) l =
    let (l', ok) = allow now ip l in
    let (end, passed) = run_client ip rest l' in (end, if ok then passed + 1 else passed)

-- The lesser of two numbers.
abbrev pub least : ℕ → ℕ → ℕ
least m n = if leb m n then m else n

admit-inside :
    (max_rps window t : ℕ) (cs : ClientState)
    → t ≤ cs.window_start + window
    → ((admit max_rps window t (some cs)).0 ≡ record cs { count = cs.count + 1 })
      × ((admit max_rps window t (some cs)).1 ≡ leb (cs.count + 1) max_rps)
unfolding admit
admit-inside max_rps window t cs h = (ground arith, ground arith)

-- While the window of a client lasts, exactly the queries that its count leaves room for are let
-- through: of n queries, n or what is left of the limit, whichever is less.
pub run_client-window :
    (ip : Text) (ts : List ℕ) (l : Limiter) (cs : ClientState)
    → HasShards l
    → l.max_rps ≢ 0
    → client ip l ≡ some cs
    → All (λ t. t ≤ cs.window_start + l.window) ts
    → (run_client ip ts l).1 ≡ least (length ts) (l.max_rps - cs.count)
unfolding run_client
run_client-window ip [] l cs s h c d = ground arith
run_client-window ip (t ∷ ts) l cs s h c d =
    let k = allow-kept t ip l in
    let e = admit-inside l.max_rps l.window t cs d.0 in
    let a = allow-decision t ip l in
    let b = client-allow t ip l s h in
    let f = ap (λ (o : Option ClientState). admit l.max_rps l.window t o) c in
    let rest =
      run_client-window ip ts (allow t ip l).0 (record cs { count = cs.count + 1 }) (k.2 ∙ s)
        (λ z. h (sym k.0 ∙ z)) (ground arith)
        (subst (λ n. All (λ u. u ≤ cs.window_start + n) ts) (sym k.1) d.1) in
    ground arith
