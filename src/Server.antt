-- ===== src/Server.antt =====
-- cmd/sentrydns/main.go: how the resolver and the limits are set up from the configuration, and the handler
-- of a query. `start` is the state in which the servers listen; Main has the whole of `main`. A panic is
-- not modelled, and so neither is the deferred `recover`.
pub mod Guards
pub mod Safety
pub mod Schedule
pub mod Serve
pub mod Hijack
pub mod Restart
mod Tests
use sentrydns.Base.{
  ℕ, ◌*◌, ◌+◌, ◌%◌, ◌^◌, Bool, true, false, not, ◌&&◌, Option, none, some, List, [], ◌∷◌, ◌==◌,
  if◌then◌else◌, any, or_else, Text, ℤ, pos, pos_part, i64_inc, ltb,
}
use sentrydns.Breaker.{Gauge}
use sentrydns.Dns.{Msg, Question, rcode_refused}
use sentrydns.Store
use sentrydns.Classifier
use sentrydns.LearnedFile.{is_nil}
use sentrydns.Config.{Config, IpText}
use sentrydns.Config.Ttl.{uint32}
use sentrydns.RateLimit.{GlobalLimiter, Limiter, new_global, allow_global, allow}
use sentrydns.RateLimit
use sentrydns.Resolver.{Resolver, Live, World, Metrics}
use sentrydns.Resolver.Filter.{server_fail, set_static_records}
use sentrydns.Resolver.Handle.{
  resolve_request, set_timeout, set_global_timeout, set_cb_cooldown, set_global_cb_cooldown,
}
use sentrydns.Resolver.Setup
use sentrydns.Resolver.Setup.{Settings}

-- What `main` uses of Go's net and time, and of the dns package: the host of an address with a port, if
-- it has one, the nanoseconds of a duration, and `new(dns.Msg).SetRcode(req, rcode)`.
pub record Net : Type 0 where
  pub ip_text : IpText
  pub split_host : Text → Option Text
  pub parse_duration : Text → Option ℤ
  pub set_rcode : Msg → ℕ → Msg

-- The arguments of `resolver.New`.
unfoldable pub settings : Config → Settings
settings cfg = record {
  iran_dns = cfg.iran_dns;
  global_dns = cfg.global_dns;
  global_dns_fallback = cfg.global_dns_fallback;
  iran_tlds = cfg.iran_tlds;
  hijack_ips = cfg.hijack_ips;
  hijack_ranges = cfg.hijack_ranges;
  prefer_iran_domains = cfg.prefer_iran_domains;
  min_ttl = uint32 cfg.min_ttl;
  max_ttl = uint32 cfg.max_ttl;
  cache_max_entries = pos_part cfg.cache_max_entries;
  cb_threshold = uint32 cfg.iran_cb_threshold;
  cb_cooldown = 30000000000;
  global_cb_threshold = uint32 cfg.global_cb_threshold;
  global_cb_cooldown = 30000000000;
}

-- The duration in a setting, if it is there and can be read; a negative one counts as 0.
abbrev pub cooldown : Net → Text → Option ℕ
cooldown net s = elim (net.parse_duration s) [
  | none ↦ none
  | some d ↦ if is_nil s then none else some (pos_part d)
]

-- The upstreams that are written as IP addresses.
unfoldable pub watched : IpText → List Text → List ℕ
watched ip_text [] = []
watched ip_text (s ∷ rest) = elim (ip_text.parse_ip s) [
  | none ↦ watched ip_text rest
  | some ip ↦ ip ∷ watched ip_text rest
]

abbrev pub upstreams : Config → List Text
upstreams cfg = cfg.iran_dns ∷ cfg.global_dns ∷ cfg.global_dns_fallback ∷ []

unfoldable pub loop_ips : IpText → Config → List ℕ
unfolding watched
loop_ips ip_text cfg = if cfg.loop_detection then watched ip_text (upstreams cfg) else []

-- What changes while the server runs, with the counters of internal/metrics that the handler writes.
pub record Server : Type 0 where
  pub live : Live
  pub global : GlobalLimiter
  pub limiter : Limiter
  pub loop_detections : ℕ
  pub queries_global_limited : ℕ
  pub queries_rate_limited : ℕ

-- `time.Duration(n) * time.Second`, whose product wraps; where it is negative it counts as 0.
abbrev pub whole_seconds : ℤ → ℕ
whole_seconds n =
    let product = pos_part n * 1000000000 % 2 ^ 64 in if ltb product (2 ^ 63) then product else 0

unfoldable pub start_resolver : World → Classifier.Classifier → Config → Resolver
unfolding settings
start_resolver w c cfg = set_global_timeout (pos_part cfg.global_dns_timeout) (
    set_timeout (whole_seconds cfg.iran_dns_timeout)
      (set_static_records w cfg.static_records (Setup.new w c (settings cfg))))

abbrev pub with_cooldowns : Option ℕ → Option ℕ → Live → Live
with_cooldowns none none s = s
with_cooldowns (some d) none s = set_cb_cooldown d s
with_cooldowns none (some d) s = set_global_cb_cooldown d s
with_cooldowns (some d) (some e) s = set_global_cb_cooldown e (set_cb_cooldown d s)

-- The state in which the servers start to listen, at the time `now`.
unfoldable pub start : Net → Config → Store.Store → Metrics → Gauge → Gauge → ℕ → Server
unfolding settings
start net cfg store metrics iran_gauge global_gauge now = record {
  live =
      with_cooldowns (cooldown net cfg.iran_cb_cooldown) (cooldown net cfg.global_cb_cooldown)
        (Setup.new_live store (settings cfg) metrics iran_gauge global_gauge 0);
  global = new_global now (pos_part cfg.global_qps_limit);
  limiter = RateLimit.new (pos_part cfg.rate_limit_per_client);
  loop_detections = 0;
  queries_global_limited = 0;
  queries_rate_limited = 0;
}

-- How often the updater runs, in nanoseconds; `none` where there is no updater.
unfoldable pub update_interval : Net → Config → Option ℤ
update_interval net cfg =
    if is_nil cfg.iran_ranges_url
    then none
    else some (or_else (net.parse_duration cfg.iran_ranges_update_interval) (pos 86400000000000))

-- A query as it arrives: from the address `remote`, at the time `now`.
pub record Arrival : Type 0 where
  pub remote : Text
  pub req : Msg
  pub now : ℕ

abbrev pub client_ip : Net → Arrival → Text
client_ip net a = or_else (net.split_host a.remote) a.remote

abbrev pub is_looped : Net → Config → Arrival → Bool
is_looped net cfg a = elim (net.ip_text.parse_ip (client_ip net a)) [
  | none ↦ false
  | some cip ↦ any (λ lip. cip == lip) (loop_ips net.ip_text cfg)
]

-- Past the guards.
unfoldable pub answer : World → Resolver → Arrival → Server → Server × Msg
answer w r a s =
    let (live, resp) = resolve_request w r (some a.req) s.live in (record s { live = live }, resp)

-- The limit of the client, where there is one.
unfoldable pub limit_client : World → Net → Config → Resolver → Arrival → Server → Server × Msg
unfolding answer
limit_client w net cfg r a s =
    let (limiter, ok) = allow a.now (client_ip net a) s.limiter in
    let limited = record s {
      limiter = limiter;
      queries_rate_limited = i64_inc s.queries_rate_limited;
    } in
    if pos_part cfg.rate_limit_per_client == 0
    then answer w r a s
    else if ok
    then answer w r a (record s { limiter = limiter })
    else (limited, server_fail w.lib (some a.req))

-- The limit of all clients together.
unfoldable pub limit_all : World → Net → Config → Resolver → Arrival → Server → Server × Msg
unfolding limit_client
limit_all w net cfg r a s =
    let (global, ok) = allow_global a.now s.global in
    let limited = record s {
      global = global;
      queries_global_limited = i64_inc s.queries_global_limited;
    } in
    if pos_part cfg.global_qps_limit == 0
    then limit_client w net cfg r a s
    else if ok
    then limit_client w net cfg r a (record s { global = global })
    else (limited, server_fail w.lib (some a.req))

-- A query with a question: a query that comes from an upstream is refused.
unfoldable pub guard_loop : World → Net → Config → Resolver → Arrival → Server → Server × Msg
unfolding limit_all loop_ips
guard_loop w net cfg r a s =
    if cfg.loop_detection && is_looped net cfg a
    then (
      record s { loop_detections = i64_inc s.loop_detections },
      net.set_rcode a.req rcode_refused,
    )
    else limit_all w net cfg r a s

-- A query without a question is a failure.
unfoldable pub guard_question :
    World → Net → Config → Resolver → Arrival → List Question → Server → Server × Msg
unfolding guard_loop
guard_question w net cfg r a [] s = (s, server_fail w.lib (some a.req))
guard_question w net cfg r a (q ∷ qs) s = guard_loop w net cfg r a s

-- The handler: the state afterwards, and the reply that is written.
unfoldable pub handle : World → Net → Config → Resolver → Arrival → Server → Server × Msg
unfolding guard_question
handle w net cfg r a s = guard_question w net cfg r a a.req.question s
