-- ===== src/Resolver/Balance.antt =====
-- `Resolve` as a whole: the count of active queries, and what it puts into the cache.
use sentrydns.Base.{
  arith, refl, ℕ, ◌+◌, ◌^◌, ◌<◌, ◌≡◌, Bool, Option, none, some, List, [], ◌∷◌, Text, ap, i64_inc,
}
use sentrydns.Dns.{Msg, Question, rcode_server_failure}
use sentrydns.Cache
use sentrydns.Resolver.{Resolver, Live, World, next_tick}
use sentrydns.Resolver.Route.{resolve}
use sentrydns.Resolver.Handle.{
  add_retried, conclude, fly, do_flight, answer, handle, checked, enter, questions, resolve_request,
}
use sentrydns.Resolver.Replies.{counted}
use sentrydns.Resolver.Untouched.{View, resolve-view}

-- The two counts of queries in progress.
abbrev pub in_progress : Live → ℕ × ℕ
in_progress s = (s.active, s.metrics.in_flight_queries)

-- These, the number of queries, and the flag that `Stop` sets.
abbrev Counts : Type 0
Counts = ℕ × ℕ × ℕ × Bool

abbrev counts : Live → Counts
counts s = (s.active, s.metrics.in_flight_queries, s.metrics.queries_total, s.stopped)

conclude-counts :
    (w : World) (req : Msg) (resp : Option Msg) (s : Live)
    → counts (conclude w req resp s).0 ≡ counts s
unfolding conclude
conclude-counts w req none s = refl
conclude-counts w req (some resp) s = ground arith

resolve-counts :
    (w : World) (r : Resolver) (req : Msg) (qtype : ℕ) (domain : Text) (s : Live)
    → counts (resolve w r req qtype domain s).0 ≡ counts s
resolve-counts w r req qtype domain s =
    ap (λ (v : View). (v.1, v.2, v.3, v.4)) (resolve-view w r req qtype domain s)

fly-counts :
    (w : World) (r : Resolver) (req : Msg) (qtype : ℕ) (domain : Text) (s : Live)
    → counts (fly w r req qtype domain s).0 ≡ counts s
unfolding fly
fly-counts w r req qtype domain s =
    let (s1, resp) = resolve w r req qtype domain s in
    let (s2, again) = resolve w r req qtype domain (add_retried s1) in
    let a = conclude-counts w req again s2 in
    let b = resolve-counts w r req qtype domain (add_retried s1) in
    let c = conclude-counts w req resp s1 in
    let d = resolve-counts w r req qtype domain s in ground arith

do_flight-counts :
    (w : World) (r : Resolver) (req : Msg) (qtype : ℕ) (domain : Text) (s : Live)
    → counts (do_flight w r req qtype domain s).0 ≡ counts s
unfolding do_flight
do_flight-counts w r req qtype domain s =
    let x = fly-counts w r req qtype domain (next_tick s) in ground arith

-- The state in which `answer` goes to the upstreams.
abbrev pub missed : World → Msg → Live → Live
missed w req s = record (next_tick (next_tick s)) {
  cache = (Cache.get w.lib (w.now s.tick) (w.now (s.tick + 1)) s.cache req).0;
  metrics = record s.metrics { cache_miss = i64_inc s.metrics.cache_miss };
}

answer-counts :
    (w : World) (r : Resolver) (req : Msg) (qtype : ℕ) (domain : Text) (s : Live)
    → counts (answer w r req qtype domain s).0 ≡ counts s
unfolding answer
answer-counts w r req qtype domain s =
    let x = do_flight-counts w r req qtype domain (missed w req s) in ground arith

handle-counts :
    (w : World) (r : Resolver) (req : Msg) (q : Question) (s : Live)
    → counts (handle w r req q s).0 ≡ counts (counted s)
unfolding handle
handle-counts w r req q s = let x = answer-counts w r req q.qtype q.name (counted s) in ground arith

checked-in_progress :
    (w : World) (r : Resolver) (req : Option Msg) (qs : List Question) (s : Live)
    → in_progress (checked w r req qs s).0 ≡ in_progress s
unfolding checked
checked-in_progress w r none qs s = refl
checked-in_progress w r (some req) [] s = refl
checked-in_progress w r (some req) (q ∷ qs) s =
    ap (λ (v : Counts). (v.0, v.1)) (handle-counts w r req q s)

-- After a query the counts of active queries and of queries in flight are what they were before, on
-- every path: a nil request, one without a question, a static record, a cached answer, and whatever
-- the upstreams do. (They are 64-bit numbers.) So `Stop`, which waits for the count to drop to 0, is
-- not held up by a query that has ended.
pub resolve_request-in_progress :
    (w : World) (r : Resolver) (req : Option Msg) (s : Live)
    → s.active < 2 ^ 64
    → s.metrics.in_flight_queries < 2 ^ 64
    → in_progress (resolve_request w r req s).0 ≡ in_progress s
unfolding resolve_request
resolve_request-in_progress w r req s a b =
    let x = checked-in_progress w r req (questions req) (enter s) in
    let y = ap (λ (v : ℕ × ℕ). v.0) x in let z = ap (λ (v : ℕ × ℕ). v.1) x in ground arith

pub resolve-cache :
    (w : World) (r : Resolver) (req : Msg) (qtype : ℕ) (domain : Text) (s : Live)
    → (resolve w r req qtype domain s).0.cache ≡ s.cache
resolve-cache w r req qtype domain s = ap (λ (v : View). v.0) (resolve-view w r req qtype domain s)

-- A failure is not stored: neither that of the upstreams nor one that a retry could not mend.
conclude-failed :
    (w : World) (req : Msg) (resp : Option Msg) (s : Live)
    → (conclude w req resp s).1.rcode ≡ rcode_server_failure
    → (conclude w req resp s).0.cache ≡ s.cache
unfolding conclude
conclude-failed w req none s e = refl
conclude-failed w req (some resp) s e = ground arith

fly-failed :
    (w : World) (r : Resolver) (req : Msg) (qtype : ℕ) (domain : Text) (s : Live)
    → (fly w r req qtype domain s).1.rcode ≡ rcode_server_failure
    → (fly w r req qtype domain s).0.cache ≡ s.cache
unfolding fly
fly-failed w r req qtype domain s e =
    let (s1, resp) = resolve w r req qtype domain s in
    let (s2, again) = resolve w r req qtype domain (add_retried s1) in
    let a = conclude-failed w req again s2 in
    let b = resolve-cache w r req qtype domain (add_retried s1) in
    let c = conclude-failed w req resp s1 in
    let d = resolve-cache w r req qtype domain s in ground arith

-- A server failure is never cached: when the upstreams are asked and the reply is a server failure,
-- after the retry, the cache is as it was.
pub do_flight-failed :
    (w : World) (r : Resolver) (req : Msg) (qtype : ℕ) (domain : Text) (s : Live)
    → (do_flight w r req qtype domain s).1.rcode ≡ rcode_server_failure
    → (do_flight w r req qtype domain s).0.cache ≡ s.cache
unfolding do_flight
do_flight-failed w r req qtype domain s e =
    let x = fly-failed w r req qtype domain (next_tick s) in ground arith
