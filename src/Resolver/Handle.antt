-- ===== src/Resolver/Handle.antt =====
-- `Resolve` of internal/resolver/resolver.go, the setters and the other entry points. The singleflight
-- group runs the function unless a call is in flight for the same key, whose result is then shared.
use sentrydns.Base.{
  ℕ, zero, suc, ◌+◌, Bool, true, false, not, Option, none, some, List, [], ◌∷◌, ◌++◌, ◌==◌,
  if◌then◌else◌, Text, codes, to_lower, i64_inc, i64_dec,
}
use sentrydns.Dns.{
  Msg, Question, DnsLib, type_a, rcode_success, rcode_name_error, rcode_server_failure, empty_msg,
}
use sentrydns.Cache
use sentrydns.Resolver.{Resolver, Live, World, udp, next_tick}
use sentrydns.Resolver.Filter.{server_fail, static_lookup, static_response}
use sentrydns.Resolver.Query.{rand_dns_id}
use sentrydns.Resolver.Route.{resolve}

abbrev pub is_failure : Option Msg → Bool
is_failure none = true
is_failure (some resp) = resp.rcode == rcode_server_failure

abbrev pub add_servfail : Live → Live
add_servfail s = record s {
  metrics = record s.metrics { queries_servfail = i64_inc s.metrics.queries_servfail };
}

abbrev pub add_retried : Live → Live
add_retried s = record s {
  metrics = record s.metrics { queries_retried = i64_inc s.metrics.queries_retried };
}

-- A failure is counted and returned as it is; anything else is stored in the cache.
unfoldable pub conclude : World → Msg → Option Msg → Live → Live × Msg
conclude w req none s = (add_servfail s, server_fail w.lib (some req))
conclude w req (some resp) s =
    let stored = record (next_tick s) {
      cache =
          Cache.set w.lib (w.order s.tick s.cache.entries) (w.now s.tick) s.cache req (some resp);
    } in
    if resp.rcode == rcode_server_failure then (add_servfail s, resp) else (stored, resp)

-- The function that the singleflight group runs: at most one retry.
unfoldable pub fly : World → Resolver → Msg → ℕ → Text → Live → Live × Msg
unfolding conclude
fly w r req qtype domain s =
    let (s1, resp) = resolve w r req qtype domain s in
    let (s2, again) = resolve w r req qtype domain (add_retried s1) in
    if is_failure resp then conclude w req again s2 else conclude w req resp s1

-- The key under which the singleflight group runs a query.
abbrev pub flight_key : DnsLib → ℕ → Text → Text
flight_key lib qtype domain = to_lower domain ++ b':' ∷ lib.type_to_string qtype

unfoldable pub do_flight : World → Resolver → Msg → ℕ → Text → Live → Live × Msg
unfolding fly
do_flight w r req qtype domain s = elim (w.shared s.tick (flight_key w.lib qtype domain)) [
  | some shared ↦ (next_tick s, shared)
  | none ↦ fly w r req qtype domain (next_tick s)
]

-- After the static records: the cache, then the upstreams.
unfoldable pub answer : World → Resolver → Msg → ℕ → Text → Live → Live × Msg
unfolding do_flight
answer w r req qtype domain s =
    let (cache, cached) = Cache.get w.lib (w.now s.tick) (w.now (s.tick + 1)) s.cache req in
    let looked = record (next_tick (next_tick s)) { cache = cache } in
    let (s', resp) = do_flight w r req qtype domain (record looked {
      metrics = record s.metrics { cache_miss = i64_inc s.metrics.cache_miss };
    }) in
    elim cached [
      | some msg ↦ (
        record looked {
          metrics = record s.metrics { queries_cached = i64_inc s.metrics.queries_cached };
        },
        msg,
      )
      | none ↦ (s', record resp { id = req.id })
    ]

-- A request with a first question.
unfoldable pub handle : World → Resolver → Msg → Question → Live → Live × Msg
unfolding answer
handle w r req q s =
    let counted = record s {
      metrics = record s.metrics { queries_total = i64_inc s.metrics.queries_total };
    } in
    let served = record counted {
      metrics = record counted.metrics { path_static = i64_inc s.metrics.path_static };
    } in
    elim (static_lookup r q.name) [
      | none ↦ answer w r req q.qtype q.name counted
      | some ip ↦
          if q.qtype == type_a
          then (served, static_response w.lib w.net req ip)
          else answer w r req q.qtype q.name counted
    ]

-- The guards on the request.
unfoldable pub checked : World → Resolver → Option Msg → List Question → Live → Live × Msg
unfolding handle
checked w r none qs s = (s, server_fail w.lib none)
checked w r (some req) [] s = (s, server_fail w.lib (some req))
checked w r (some req) (q ∷ qs) s = handle w r req q s

abbrev pub questions : Option Msg → List Question
questions none = []
questions (some req) = req.question

abbrev pub enter : Live → Live
enter s = record s {
  metrics = record s.metrics { in_flight_queries = i64_inc s.metrics.in_flight_queries };
  active = i64_inc s.active;
}

-- The two deferred calls.
abbrev pub leave : Live × Msg → Live × Msg
leave (s, msg) = (
  record s {
    metrics = record s.metrics { in_flight_queries = i64_dec s.metrics.in_flight_queries };
    active = i64_dec s.active;
  },
  msg,
)

-- `Resolve`. The flag `stopped` also stands for the closed channel `stopCh`.
unfoldable pub resolve_request : World → Resolver → Option Msg → Live → Live × Msg
unfolding checked
resolve_request w r req s =
    if s.stopped
    then (s, server_fail w.lib req)
    else leave (checked w r req (questions req) (enter s))

-- `ValidateDomain`: only a name error of the Iranian upstream makes a domain invalid.
abbrev pub not_name_error : Option Msg → Bool
not_name_error none = true
not_name_error (some resp) = not (resp.rcode == rcode_name_error)

abbrev pub ask_for : World → Text → ℕ → Msg
ask_for w domain id = record empty_msg {
  id = id;
  question = record { name = domain; qtype = type_a } ∷ [];
}

unfoldable pub validate_domain : World → Resolver → Text → Live → Live × Bool
validate_domain w r domain s =
    let (s', id) = rand_dns_id s in
    let (elapsed, reply) =
      w.exchange s'.tick udp r.iran_addr 1000000000 (ask_for w (w.fqdn domain) id) in
    if s.stopped then (s, true) else (next_tick s', not_name_error reply)

abbrev pub is_success : Option Msg → Bool
is_success none = false
is_success (some resp) = resp.rcode == rcode_success

-- The loop of `IranDNSHealthy`, with the rounds that are left.
unfoldable pub try_health : World → Resolver → Msg → ℕ → Live → Live × Bool
try_health w r req zero s = (s, false)
try_health w r req (suc rounds) s =
    let (elapsed, reply) = w.exchange s.tick udp r.iran_addr 2000000000 req in
    let rest = try_health w r req rounds (next_tick s) in
    if is_success reply then (next_tick s, true) else rest

unfoldable pub iran_dns_healthy : World → Resolver → Live → Live × Bool
unfolding try_health
iran_dns_healthy w r s =
    let (s', id) = rand_dns_id s in
    let out = try_health w r (ask_for w (codes "nic.ir.") id) 3 s' in
    if s.stopped then (s, false) else out

-- The setters; the breakers' cooldowns are part of what changes.
unfoldable pub set_timeout : ℕ → Resolver → Resolver
set_timeout d r = record r { timeout = d }

unfoldable pub set_global_timeout : ℕ → Resolver → Resolver
set_global_timeout d r = record r { global_timeout = d }

unfoldable pub set_cb_cooldown : ℕ → Live → Live
set_cb_cooldown d s =
    let (cb, gauge) = s.iran_cb in record s { iran_cb = (record cb { cooldown = d }, gauge) }

unfoldable pub set_global_cb_cooldown : ℕ → Live → Live
set_global_cb_cooldown d s =
    let (cb, gauge) = s.global_cb in record s { global_cb = (record cb { cooldown = d }, gauge) }

-- The loop of `Stop`, with what it reads of `active` each time and whether its deadline has then passed: true
-- if it ends.
unfoldable pub wait_idle : List (ℕ × Bool) → Bool
wait_idle [] = false
wait_idle ((active, late) ∷ rest) =
    let more = wait_idle rest in if active == 0 then true else if late then true else more

-- `Stop`: queries in progress go on, and the wait changes nothing.
unfoldable pub stop : Live → Live
stop s = record s { stopped = true }
