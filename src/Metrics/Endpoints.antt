-- ===== src/Metrics/Endpoints.antt =====
-- internal/metrics/server.go: what the endpoints /metrics and /health show. The formats of `fmt` and `time` and the arithmetic on floats are parameters; the JSON encoder and
-- the HTTP server are not part of it.
use sentrydns.Base.{
  ℕ, ◌-◌, ◌/◌, Bool, Option, none, some, List, [], ◌∷◌, ltb, if◌then◌else◌, Text, codes, text_eq,
}
use sentrydns.Metrics.{Metrics, learned_today_value, uptime}

-- `percent` is `%.1f%%`, `date` a layout of `time.Format`, `ago` a rounded `Duration`'s `String` and
-- `fixed` is `%.6f`. Times are in seconds.
pub record Format : Type 1 where
  pub Float : Type 0
  pub float : ℕ → Float
  pub quotient : Float → Float → Float
  pub scaled : Float → ℕ → Float
  pub percent : Float → Text
  pub fixed : Float → Text
  pub decimal : ℕ → Text
  pub date : ℕ → Text
  pub ago : ℕ → Text

-- The time of the request, the nanoseconds since the start, and what `storeSize` returns.
pub record Clock : Type 0 where
  pub now : ℕ
  pub since : ℕ
  pub store_size : ℕ

pub record Response : Type 0 where
  pub uptime : Text
  pub start_time : Text
  pub queries_total : ℕ
  pub queries_iran : ℕ
  pub queries_global : ℕ
  pub queries_retried : ℕ
  pub queries_servfail : ℕ
  pub queries_cached : ℕ
  pub cache_miss : ℕ
  pub cache_hit_ratio : Text
  pub learned_total : ℕ
  pub learned_today : ℕ
  pub store_size : ℕ
  pub store_removed : ℕ
  pub store_cleaned : ℕ
  pub last_update_time : Text
  pub last_update_success : Bool
  pub last_update_ago : Text
  pub path_tld : ℕ
  pub path_prefer_iran : ℕ
  pub path_store : ℕ
  pub path_learn : ℕ
  pub path_static : ℕ
  pub iran_avg_latency_ms : ℕ
  pub iran_timeouts : ℕ
  pub global_avg_latency_ms : ℕ
  pub global_timeouts : ℕ
  pub global_fallback_count : ℕ
  pub global_fallback_avg_latency_ms : ℕ
  pub tcp_fallback_count : ℕ
  pub in_flight_queries : ℕ
  pub queries_rate_limited : ℕ
  pub queries_global_limited : ℕ
  pub loop_detections : ℕ
  pub iran_cb_skipped : ℕ
  pub iran_cb_trips : ℕ
  pub iran_cb_open : ℕ
  pub global_cb_skipped : ℕ
  pub global_cb_trips : ℕ
  pub global_cb_open : ℕ
  pub short_wait_expired : ℕ

abbrev pub hit_ratio : Format → Metrics → Text
hit_ratio fmt m =
    if ltb 0 m.queries_total
    then fmt.percent
        (fmt.scaled (fmt.quotient (fmt.float m.queries_cached) (fmt.float m.queries_total)) 100)
    else codes "0%"

abbrev pub or_never : (ℕ → Text) → Option ℕ → Text
or_never show none = codes "never"
or_never show (some t) = show t

-- An average latency in milliseconds; totals are in nanoseconds.
abbrev pub average_ms : ℕ → ℕ → ℕ
average_ms total count = if ltb 0 count then total / count / 1000000 else 0

unfoldable pub metrics_handler : Format → Clock → Metrics → Response
metrics_handler fmt clock m = record {
  uptime = uptime fmt.decimal clock.since;
  start_time = fmt.date m.start_time;
  queries_total = m.queries_total;
  queries_iran = m.queries_iran;
  queries_global = m.queries_global;
  queries_retried = m.queries_retried;
  queries_servfail = m.queries_servfail;
  queries_cached = m.queries_cached;
  cache_miss = m.cache_miss;
  cache_hit_ratio = hit_ratio fmt m;
  learned_total = m.learned_total;
  learned_today = learned_today_value m;
  store_size = clock.store_size;
  store_removed = m.store_removed;
  store_cleaned = m.store_cleaned;
  last_update_time = or_never fmt.date m.last_update_time;
  last_update_success = m.last_update_success;
  last_update_ago = or_never (λ t. fmt.ago (clock.now - t)) m.last_update_time;
  path_tld = m.path_tld;
  path_prefer_iran = m.path_prefer_iran;
  path_store = m.path_store;
  path_learn = m.path_learn;
  path_static = m.path_static;
  iran_avg_latency_ms = average_ms m.iran_latency_total m.iran_query_count;
  iran_timeouts = m.iran_timeouts;
  global_avg_latency_ms = average_ms m.global_latency_total m.global_query_count;
  global_timeouts = m.global_timeouts;
  global_fallback_count = m.global_fallback_count;
  global_fallback_avg_latency_ms =
      average_ms m.global_fallback_latency_total m.global_fallback_count;
  tcp_fallback_count = m.tcp_fallback_count;
  in_flight_queries = m.in_flight_queries;
  queries_rate_limited = m.queries_rate_limited;
  queries_global_limited = m.queries_global_limited;
  loop_detections = m.loop_detections;
  iran_cb_skipped = m.iran_cb_skipped;
  iran_cb_trips = m.iran_cb_trips;
  iran_cb_open = m.iran_cb_open;
  global_cb_skipped = m.global_cb_skipped;
  global_cb_trips = m.global_cb_trips;
  global_cb_open = m.global_cb_open;
  short_wait_expired = m.short_wait_expired;
}

unfoldable pub health_handler : Format → Clock → List (Text × Text)
health_handler fmt clock =
    (codes "status", codes "ok") ∷ (codes "uptime", uptime fmt.decimal clock.since) ∷ []

-- The routes that `StartServer` sets up: `http.ServeMux` takes a pattern without a final slash for that path
-- alone.
pub data Endpoint : Type 0 where
  json_metrics prom_metrics health not_found : Endpoint

unfoldable pub route : Text → Endpoint
route path =
    if text_eq path (codes "/metrics")
    then json_metrics
    else if text_eq path (codes "/metrics/prom")
    then prom_metrics
    else if text_eq path (codes "/health")
    then health
    else not_found
