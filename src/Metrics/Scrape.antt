-- ===== src/Metrics/Scrape.antt =====
-- The two endpoints show the same counters and gauges.
use sentrydns.Base.{refl, ℕ, ◌≡◌, some, List, [], ◌∷◌, ◌++◌, Text, codes, ltb, if◌then◌else◌}
use sentrydns.Metrics.{Metrics}
use sentrydns.Metrics.Endpoints.{Format, Clock, Response, metrics_handler}
use sentrydns.Metrics.Prometheus.{
  PromMetric, prom_defs, prom_gauge_defs, block, write_blocks, prometheus_handler, format_float,
  or_zero, average_seconds,
}

-- The counters of the JSON response, under their names as counters of Prometheus.
abbrev pub json_counters : Response → List (Text × ℕ)
json_counters r =
    (codes "sentrydns_queries_total", r.queries_total)
    ∷ (codes "sentrydns_path_tld_total", r.path_tld)
    ∷ (codes "sentrydns_path_prefer_iran_total", r.path_prefer_iran)
    ∷ (codes "sentrydns_path_store_total", r.path_store)
    ∷ (codes "sentrydns_path_learn_total", r.path_learn)
    ∷ (codes "sentrydns_path_static_total", r.path_static)
    ∷ (codes "sentrydns_queries_cached_total", r.queries_cached)
    ∷ (codes "sentrydns_cache_miss_total", r.cache_miss)
    ∷ (codes "sentrydns_queries_retried_total", r.queries_retried)
    ∷ (codes "sentrydns_queries_servfail_total", r.queries_servfail)
    ∷ (codes "sentrydns_queries_rate_limited_total", r.queries_rate_limited)
    ∷ (codes "sentrydns_queries_global_limited_total", r.queries_global_limited)
    ∷ (codes "sentrydns_loop_detections_total", r.loop_detections)
    ∷ (codes "sentrydns_learned_total", r.learned_total)
    ∷ (codes "sentrydns_store_removed_total", r.store_removed)
    ∷ (codes "sentrydns_store_cleaned_total", r.store_cleaned)
    ∷ (codes "sentrydns_iran_timeouts_total", r.iran_timeouts)
    ∷ (codes "sentrydns_global_timeouts_total", r.global_timeouts)
    ∷ (codes "sentrydns_tcp_fallback_total", r.tcp_fallback_count)
    ∷ (codes "sentrydns_global_fallback_total", r.global_fallback_count)
    ∷ (codes "sentrydns_iran_cb_skipped_total", r.iran_cb_skipped)
    ∷ (codes "sentrydns_iran_cb_trips_total", r.iran_cb_trips)
    ∷ (codes "sentrydns_global_cb_skipped_total", r.global_cb_skipped)
    ∷ (codes "sentrydns_global_cb_trips_total", r.global_cb_trips)
    ∷ (codes "sentrydns_short_wait_expired_total", r.short_wait_expired)
    ∷ []

-- The ratio of two counts; with none the ratio is 0.
abbrev pub ratio : (fmt : Format) → ℕ → ℕ → fmt.Float
ratio fmt part total =
    if ltb 0 total then fmt.quotient (fmt.float part) (fmt.float total) else fmt.float 0

-- The gauges, with the values of the JSON response where it has them as numbers; the other ones are an
-- uptime in seconds, times in seconds, a ratio and averages in seconds.
abbrev pub json_gauges : (fmt : Format) → Clock → Metrics → Response → List (Text × fmt.Float)
json_gauges fmt clock m r =
    (codes "sentrydns_uptime_seconds", fmt.quotient (fmt.float clock.since) (fmt.float 1000000000))
    ∷ (codes "sentrydns_start_time_seconds", fmt.float m.start_time)
    ∷ (codes "sentrydns_cache_hit_ratio", ratio fmt r.queries_cached r.queries_total)
    ∷ (codes "sentrydns_learned_today", fmt.float r.learned_today)
    ∷ (codes "sentrydns_store_size", fmt.float r.store_size)
    ∷ (codes "sentrydns_last_update_timestamp_seconds", fmt.float (or_zero m.last_update_time))
    ∷ (codes "sentrydns_last_update_success", fmt.float (if r.last_update_success then 1 else 0))
    ∷ (
      codes "sentrydns_iran_avg_latency_seconds",
      average_seconds fmt m.iran_latency_total m.iran_query_count,
    )
    ∷ (
      codes "sentrydns_global_avg_latency_seconds",
      average_seconds fmt m.global_latency_total m.global_query_count,
    )
    ∷ (
      codes "sentrydns_global_fallback_avg_latency_seconds",
      average_seconds fmt m.global_fallback_latency_total m.global_fallback_count,
    )
    ∷ (codes "sentrydns_in_flight_queries", fmt.float r.in_flight_queries)
    ∷ (codes "sentrydns_iran_cb_open", fmt.float r.iran_cb_open)
    ∷ (codes "sentrydns_global_cb_open", fmt.float r.global_cb_open)
    ∷ []

-- A block for each metric, under the help texts of these metrics.
unfoldable pub blocks {ℓ} :
    {A : Type ℓ} → Text → (A → Text) → List PromMetric → List (Text × A) → Text
blocks typ show [] rows = []
blocks typ show (d ∷ ds) [] = []
blocks typ show (d ∷ ds) ((name, v) ∷ rows) =
    block typ d.help name (show v) ++ blocks typ show ds rows

-- The handler of /metrics/prom never reads past the end of its lists of names and values. Its text is a
-- block for each of the counters of the JSON response to the same request, each under its own name and
-- with the same value, and then one for each gauge, again under its own name and, where the response
-- has its number, with the same value.
pub prometheus_handler-metrics_handler :
    (fmt : Format) (clock : Clock) (m : Metrics)
    → let r = metrics_handler fmt clock m in
      prometheus_handler fmt clock m
      ≡ some (
          blocks (codes "counter") fmt.decimal prom_defs (json_counters r)
          ++ blocks (codes "gauge") (format_float fmt) prom_gauge_defs (json_gauges fmt clock m r))
unfolding prometheus_handler write_blocks blocks metrics_handler
prometheus_handler-metrics_handler fmt clock m = refl
