-- ===== src/Server/Serve.antt =====
-- The theorems on the handler, from the state in which `main` starts to listen.
use sentrydns.Base.{arith, refl, ap, sym, subst, ℕ, ◌≡◌, ◌∙◌, List, Option, none, some}
use sentrydns.Breaker.{Gauge}
use sentrydns.Cache
use sentrydns.Cache.Sound.{IsSound}
use sentrydns.Store.{Store}
use sentrydns.Config.{Config}
use sentrydns.RateLimit.{token, new_global}
use sentrydns.RateLimit
use sentrydns.Resolver.{Resolver, World, Metrics, Live}
use sentrydns.Resolver.Handle.{set_cb_cooldown, set_global_cb_cooldown}
use sentrydns.Resolver.Cached.{Ranges}
use sentrydns.Resolver.Setup.{new_live}
use sentrydns.Server.{Net, Arrival, start, settings, with_cooldowns, cooldown}
use sentrydns.Server.Guards.{run}
use sentrydns.Server.Safety.{IsOk, run-IsOk}

-- The cooldowns of the breakers are all that is set afterwards.
with_cooldowns-kept :
    (d e : Option ℕ) (s : Live)
    → ((with_cooldowns d e s).cache ≡ s.cache)
      × ((with_cooldowns d e s).active ≡ s.active)
      × ((with_cooldowns d e s).metrics ≡ s.metrics)
unfolding set_cb_cooldown set_global_cb_cooldown
with_cooldowns-kept none none s = (refl, refl, refl)
with_cooldowns-kept (some d) none s = (refl, refl, refl)
with_cooldowns-kept none (some e) s = (refl, refl, refl)
with_cooldowns-kept (some d) (some e) s = (refl, refl, refl)

pub start-live :
    (net : Net) (cfg : Config) (store : Store) (metrics : Metrics) (iran_gauge global_gauge : Gauge)
    (now : ℕ)
    → let s = start net cfg store metrics iran_gauge global_gauge now in
      (s.live.cache
        ≡ Cache.new (settings cfg).min_ttl (settings cfg).max_ttl (settings cfg).cache_max_entries)
      × (s.live.active ≡ 0)
      × (s.live.metrics ≡ metrics)
unfolding start new_live
start-live net cfg store metrics iran_gauge global_gauge now =
    with_cooldowns-kept (cooldown net cfg.iran_cb_cooldown) (cooldown net cfg.global_cb_cooldown)
      (new_live store (settings cfg) metrics iran_gauge global_gauge 0)

new-IsSound : (min_ttl max_ttl max_entries : ℕ) → IsSound (Cache.new min_ttl max_ttl max_entries)
unfolding Cache.new
new-IsSound min_ttl max_ttl max_entries = record {
  valid = record { bounded = λ p. omega arith; good = tt };
  distinct = tt;
}

start-IsOk :
    (net : Net) (cfg : Config) (store : Store) (metrics : Metrics) (iran_gauge global_gauge : Gauge)
    (now : ℕ)
    → metrics.in_flight_queries ≡ 0
    → IsOk (start net cfg store metrics iran_gauge global_gauge now)
start-IsOk net cfg store metrics iran_gauge global_gauge now h =
    let s = start net cfg store metrics iran_gauge global_gauge now in
    let k = start-live net cfg store metrics iran_gauge global_gauge now in
    record {
      cache = subst IsSound (sym k.0) (new-IsSound _ _ _);
      active = k.1;
      in_flight = ap (λ (m : Metrics). m.in_flight_queries) k.2 ∙ h;
      shards = unfold start RateLimit.new in refl;
    }

-- From the start of the server with any configuration on, however many queries come, from whatever
-- clients and at whatever times, and whatever the upstreams reply: the cache keeps to its limit with
-- every key bound once, after each query the counts of active queries and of queries in flight are 0
-- again, and the limiter keeps its shards. A `range` must visit each binding of a map once, and the gauge
-- start at 0.
pub run-start-IsOk :
    (w : World) (net : Net) (cfg : Config) (r : Resolver) (as' : List Arrival) (store : Store)
    (metrics : Metrics) (iran_gauge global_gauge : Gauge) (now : ℕ)
    → Ranges w
    → metrics.in_flight_queries ≡ 0
    → IsOk (run w net cfg r as' (start net cfg store metrics iran_gauge global_gauge now))
run-start-IsOk w net cfg r as' store metrics iran_gauge global_gauge now ranges h =
    run-IsOk w net cfg r as' _ ranges
      (start-IsOk net cfg store metrics iran_gauge global_gauge now h)
