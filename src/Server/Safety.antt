-- ===== src/Server/Safety.antt =====
-- What every query of a client meets: the id of its reply, the refusal of loops, and what holds of the
-- server's state afterwards.
use sentrydns.Base.{
  arith, refl, ℕ, ◌≡◌, Bool, true, false, ◌&&◌, some, List, [], ◌∷◌, ◌==◌, any, if◌then◌else◌, Text,
  ap, sym, ◌∙◌, subst, Any, here, there, i64_inc, pos_part,
}
use sentrydns.Dns.{Msg, Question, rcode_refused}
use sentrydns.Config.{Config, IpText}
use sentrydns.RateLimit.{allow, allow_global}
use sentrydns.RateLimit.Window.{HasShards, allow-kept}
use sentrydns.Cache.Sound.{IsSound}
use sentrydns.Resolver.{Resolver, World}
use sentrydns.Resolver.Filter.{server_fail}
use sentrydns.Resolver.Replies.{KeepsId, resolve_request-id}
use sentrydns.Resolver.Balance.{resolve_request-in_progress}
use sentrydns.Resolver.Cached.{Ranges, resolve_request-IsSound}
use sentrydns.Server.{
  Net, Server, Arrival, client_ip, is_looped, watched, upstreams, loop_ips, answer, limit_client,
  limit_all, guard_loop, guard_question, handle,
}
use sentrydns.Server.Guards.{run}

-- An upstream that is written as this address is watched.
watched-there :
    (ip_text : IpText) (ss : List Text) (ip : ℕ)
    → Any (λ s. ip_text.parse_ip s ≡ some ip) ss
    → any (λ lip. ip == lip) (watched ip_text ss) ≡ true
unfolding watched
watched-there ip_text [] ip h = elim h [ ]
watched-there ip_text (s ∷ ss) ip (here e) = ground (arith, e)
watched-there ip_text (s ∷ ss) ip (there h) = let x = watched-there ip_text ss ip h in ground arith

looped :
    (net : Net) (cfg : Config) (a : Arrival) (ip : ℕ)
    → cfg.loop_detection ≡ true
    → net.ip_text.parse_ip (client_ip net a) ≡ some ip
    → Any (λ u. net.ip_text.parse_ip u ≡ some ip) (upstreams cfg)
    → (cfg.loop_detection && is_looped net cfg a) ≡ true
unfolding loop_ips
looped net cfg a ip d c u =
    let x = watched-there net.ip_text (upstreams cfg) ip u in ground (arith, d, c)

guard_loop-refuses :
    (w : World) (net : Net) (cfg : Config) (r : Resolver) (a : Arrival) (s : Server)
    → (cfg.loop_detection && is_looped net cfg a) ≡ true
    → guard_loop w net cfg r a s ≡ (
      record s { loop_detections = i64_inc s.loop_detections },
      net.set_rcode a.req rcode_refused,
    )
unfolding guard_loop
guard_loop-refuses w net cfg r a s h = rw h refl

-- With loop detection, a query with a question whose client has the address of one of the three
-- upstreams, as far as that is written as an IP address, is refused: neither the limits nor the
-- resolver see it.
pub handle-looped :
    (w : World) (net : Net) (cfg : Config) (r : Resolver) (a : Arrival) (q : Question)
    (qs : List Question) (s : Server) (ip : ℕ)
    → a.req.question ≡ q ∷ qs
    → cfg.loop_detection ≡ true
    → net.ip_text.parse_ip (client_ip net a) ≡ some ip
    → Any (λ u. net.ip_text.parse_ip u ≡ some ip) (upstreams cfg)
    → handle w net cfg r a s ≡ (
      record s { loop_detections = i64_inc s.loop_detections },
      net.set_rcode a.req rcode_refused,
    )
unfolding handle guard_question
handle-looped w net cfg r a q qs s ip e d c u =
    ap (λ l. guard_question w net cfg r a l s) e
    ∙ guard_loop-refuses w net cfg r a s (looped net cfg a ip d c u)

-- `SetRcode` takes the id over from the request.
abbrev pub RefusesById : Net → Type 0
RefusesById net = (req : Msg) (rcode : ℕ) → (net.set_rcode req rcode).id ≡ req.id

limit_client-id :
    (w : World) (net : Net) (cfg : Config) (r : Resolver) (a : Arrival) (s : Server)
    → KeepsId w.lib
    → (limit_client w net cfg r a s).1.id ≡ a.req.id
unfolding limit_client answer server_fail
limit_client-id w net cfg r a s h =
    let x = resolve_request-id w r a.req s.live h in let y = h a.req in ground arith

limit_all-id :
    (w : World) (net : Net) (cfg : Config) (r : Resolver) (a : Arrival) (s : Server)
    → KeepsId w.lib
    → (limit_all w net cfg r a s).1.id ≡ a.req.id
unfolding limit_all server_fail
limit_all-id w net cfg r a s h =
    let x = limit_client-id w net cfg r a s h in
    let z =
      limit_client-id w net cfg r a (record s { global = (allow_global a.now s.global).0 }) h in
    let y = h a.req in ground arith

guard_question-id :
    (w : World) (net : Net) (cfg : Config) (r : Resolver) (a : Arrival) (qs : List Question)
    (s : Server)
    → KeepsId w.lib
    → RefusesById net
    → (guard_question w net cfg r a qs s).1.id ≡ a.req.id
unfolding guard_question guard_loop server_fail
guard_question-id w net cfg r a [] s h k = h a.req
guard_question-id w net cfg r a (q ∷ qs) s h k =
    let x = limit_all-id w net cfg r a s h in let y = k a.req rcode_refused in ground arith

-- Where `SetReply` and `SetRcode` take the id over from the request, every query gets a reply with
-- its own id, whatever the guards, the cache and the upstreams make of it: a query without a
-- question, a refused loop, a query over one of the limits, and an answer.
pub handle-id :
    (w : World) (net : Net) (cfg : Config) (r : Resolver) (a : Arrival) (s : Server)
    → KeepsId w.lib
    → RefusesById net
    → (handle w net cfg r a s).1.id ≡ a.req.id
unfolding handle
handle-id w net cfg r a s h k = guard_question-id w net cfg r a a.req.question s h k

-- What holds of the server between two queries: the cache is sound, no query is counted as in progress,
-- and the limiter has its shards.
pub record IsOk (s : Server) : Type 0 where
  pub cache : IsSound s.live.cache
  pub active : s.live.active ≡ 0
  pub in_flight : s.live.metrics.in_flight_queries ≡ 0
  pub shards : HasShards s.limiter

answer-IsOk :
    (w : World) (r : Resolver) (a : Arrival) (s : Server)
    → Ranges w
    → IsOk s
    → IsOk (answer w r a s).0
unfolding answer
answer-IsOk w r a s o k =
    let b =
      resolve_request-in_progress w r (some a.req) s.live (omega (arith, k.active))
        (omega (arith, k.in_flight)) in
    record {
      cache = resolve_request-IsSound w r (some a.req) s.live o k.cache;
      active = ap (λ (v : ℕ × ℕ). v.0) b ∙ k.active;
      in_flight = ap (λ (v : ℕ × ℕ). v.1) b ∙ k.in_flight;
      shards = k.shards;
    }

if-IsOk : (b : Bool) (x y : Server × Msg) → IsOk x.0 → IsOk y.0 → IsOk (if b then x else y).0
if-IsOk true x y p q = p
if-IsOk false x y p q = q

-- The fields that `IsOk` is about.
same-IsOk : (s s' : Server) → s'.live ≡ s.live → HasShards s'.limiter → IsOk s → IsOk s'
same-IsOk s s' e h k = record {
  cache = subst (λ l. IsSound l.cache) (sym e) k.cache;
  active = subst (λ l. l.active ≡ 0) (sym e) k.active;
  in_flight = subst (λ l. l.metrics.in_flight_queries ≡ 0) (sym e) k.in_flight;
  shards = h;
}

limit_client-IsOk :
    (w : World) (net : Net) (cfg : Config) (r : Resolver) (a : Arrival) (s : Server)
    → Ranges w
    → IsOk s
    → IsOk (limit_client w net cfg r a s).0
unfolding limit_client
limit_client-IsOk w net cfg r a s o k =
    let (limiter, ok) = allow a.now (client_ip net a) s.limiter in
    let kept = (allow-kept a.now (client_ip net a) s.limiter).2 ∙ k.shards in
    if-IsOk (pos_part cfg.rate_limit_per_client == 0) _ _ (answer-IsOk w r a s o k) (
      if-IsOk ok _ _
        (answer-IsOk w r a (record s { limiter = limiter }) o
          (same-IsOk s (record s { limiter = limiter }) refl kept k))
        (same-IsOk s _ refl kept k))

limit_all-IsOk :
    (w : World) (net : Net) (cfg : Config) (r : Resolver) (a : Arrival) (s : Server)
    → Ranges w
    → IsOk s
    → IsOk (limit_all w net cfg r a s).0
unfolding limit_all
limit_all-IsOk w net cfg r a s o k =
    let (global, ok) = allow_global a.now s.global in
    let t = record s { global = global } in
    if-IsOk (pos_part cfg.global_qps_limit == 0) _ _ (limit_client-IsOk w net cfg r a s o k) (
      if-IsOk ok _ _ (limit_client-IsOk w net cfg r a t o (same-IsOk s t refl k.shards k))
        (same-IsOk s _ refl k.shards k))

guard_question-IsOk :
    (w : World) (net : Net) (cfg : Config) (r : Resolver) (a : Arrival) (qs : List Question)
    (s : Server)
    → Ranges w
    → IsOk s
    → IsOk (guard_question w net cfg r a qs s).0
unfolding guard_question guard_loop
guard_question-IsOk w net cfg r a [] s o k = k
guard_question-IsOk w net cfg r a (q ∷ qs) s o k =
    if-IsOk (cfg.loop_detection && is_looped net cfg a) _ _ (same-IsOk s _ refl k.shards k)
      (limit_all-IsOk w net cfg r a s o k)

-- However many queries come, from whatever clients and at whatever times, and whatever the upstreams
-- reply: the cache keeps to its limit with every key bound once, after each query the counts of
-- active queries and of queries in flight are 0 again, and the limiter keeps its shards.
pub run-IsOk :
    (w : World) (net : Net) (cfg : Config) (r : Resolver) (as' : List Arrival) (s : Server)
    → Ranges w
    → IsOk s
    → IsOk (run w net cfg r as' s)
unfolding run handle
run-IsOk w net cfg r [] s o k = k
run-IsOk w net cfg r (a ∷ rest) s o k =
    run-IsOk w net cfg r rest _ o (guard_question-IsOk w net cfg r a a.req.question s o k)
