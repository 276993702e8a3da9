-- ===== src/Metrics/Prometheus.antt =====
-- internal/metrics/prometheus.go: the text of the endpoint /metrics/prom.
use sentrydns.Base.{
  ℕ, Option, none, some, List, [], ◌∷◌, ◌++◌, ◌==◌, ltb, if◌then◌else◌, Text, codes, map,
}
use sentrydns.Metrics.{Metrics, learned_today_value}
use sentrydns.Metrics.Endpoints.{Format, Clock}

-- `strings.TrimRight` with one byte as its cutset: a byte stays unless nothing is left behind it.
abbrev pub keep_byte : ℕ → ℕ → Text → Text
keep_byte c x [] = if x == c then [] else x ∷ []
keep_byte c x (y ∷ ys) = x ∷ y ∷ ys

unfoldable pub trim_right : ℕ → Text → Text
trim_right c [] = []
trim_right c (x ∷ s) = keep_byte c x (trim_right c s)

unfoldable pub format_float : (fmt : Format) → fmt.Float → Text
unfolding trim_right
format_float fmt v = trim_right b'.' (trim_right b'0' (fmt.fixed v))

pub record PromMetric : Type 0 where
  pub help : Text
  pub typ : Text

abbrev pub prom_defs : List PromMetric
prom_defs =
    record { help = codes "Total queries received"; typ = codes "counter" }
    ∷ record { help = codes "Queries routed via Iranian TLD path"; typ = codes "counter" }
    ∷ record { help = codes "Queries routed via prefer-iran path"; typ = codes "counter" }
    ∷ record { help = codes "Queries routed via learned-store path"; typ = codes "counter" }
    ∷ record { help = codes "Queries routed via learning path"; typ = codes "counter" }
    ∷ record { help = codes "Queries answered from static records"; typ = codes "counter" }
    ∷ record { help = codes "Queries served from cache"; typ = codes "counter" }
    ∷ record { help = codes "Cache misses"; typ = codes "counter" }
    ∷ record { help = codes "Queries retried after SERVFAIL"; typ = codes "counter" }
    ∷ record { help = codes "Queries answered SERVFAIL"; typ = codes "counter" }
    ∷ record { help = codes "Queries denied by per-client rate limit"; typ = codes "counter" }
    ∷ record { help = codes "Queries denied by global QPS cap"; typ = codes "counter" }
    ∷ record { help = codes "Queries refused by loop detection"; typ = codes "counter" }
    ∷ record { help = codes "Domains learned (cumulative)"; typ = codes "counter" }
    ∷ record { help = codes "Learned domains removed"; typ = codes "counter" }
    ∷ record { help = codes "Learned domains cleaned"; typ = codes "counter" }
    ∷ record { help = codes "IranDNS timeouts"; typ = codes "counter" }
    ∷ record { help = codes "GlobalDNS timeouts"; typ = codes "counter" }
    ∷ record { help = codes "TCP fallback queries"; typ = codes "counter" }
    ∷ record { help = codes "GlobalDNS fallback queries"; typ = codes "counter" }
    ∷ record { help = codes "Iran circuit breaker skipped queries"; typ = codes "counter" }
    ∷ record { help = codes "Iran circuit breaker trips"; typ = codes "counter" }
    ∷ record { help = codes "Global circuit breaker skipped queries"; typ = codes "counter" }
    ∷ record { help = codes "Global circuit breaker trips"; typ = codes "counter" }
    ∷ record { help = codes "ShortWait expired before GlobalDNS responded"; typ = codes "counter" }
    ∷ []

abbrev pub prom_gauge_defs : List PromMetric
prom_gauge_defs =
    record { help = codes "Process uptime"; typ = codes "gauge" }
    ∷ record { help = codes "Process start time (unix seconds)"; typ = codes "gauge" }
    ∷ record { help = codes "Cache hit ratio (0-1)"; typ = codes "gauge" }
    ∷ record { help = codes "Domains learned today"; typ = codes "gauge" }
    ∷ record { help = codes "Learned store size"; typ = codes "gauge" }
    ∷ record {
      help = codes "Last Iran ranges update (unix seconds, 0 = never)";
      typ = codes "gauge";
    }
    ∷ record { help = codes "Last Iran ranges update succeeded (1 = yes)"; typ = codes "gauge" }
    ∷ record { help = codes "IranDNS average latency (seconds)"; typ = codes "gauge" }
    ∷ record { help = codes "GlobalDNS average latency (seconds)"; typ = codes "gauge" }
    ∷ record { help = codes "GlobalDNS fallback average latency (seconds)"; typ = codes "gauge" }
    ∷ record { help = codes "Queries currently in flight"; typ = codes "gauge" }
    ∷ record { help = codes "Iran circuit breaker open (1 = open)"; typ = codes "gauge" }
    ∷ record { help = codes "Global circuit breaker open (1 = open)"; typ = codes "gauge" }
    ∷ []

abbrev pub counter_names : List Text
counter_names =
    codes "sentrydns_queries_total"
    ∷ codes "sentrydns_path_tld_total"
    ∷ codes "sentrydns_path_prefer_iran_total"
    ∷ codes "sentrydns_path_store_total"
    ∷ codes "sentrydns_path_learn_total"
    ∷ codes "sentrydns_path_static_total"
    ∷ codes "sentrydns_queries_cached_total"
    ∷ codes "sentrydns_cache_miss_total"
    ∷ codes "sentrydns_queries_retried_total"
    ∷ codes "sentrydns_queries_servfail_total"
    ∷ codes "sentrydns_queries_rate_limited_total"
    ∷ codes "sentrydns_queries_global_limited_total"
    ∷ codes "sentrydns_loop_detections_total"
    ∷ codes "sentrydns_learned_total"
    ∷ codes "sentrydns_store_removed_total"
    ∷ codes "sentrydns_store_cleaned_total"
    ∷ codes "sentrydns_iran_timeouts_total"
    ∷ codes "sentrydns_global_timeouts_total"
    ∷ codes "sentrydns_tcp_fallback_total"
    ∷ codes "sentrydns_global_fallback_total"
    ∷ codes "sentrydns_iran_cb_skipped_total"
    ∷ codes "sentrydns_iran_cb_trips_total"
    ∷ codes "sentrydns_global_cb_skipped_total"
    ∷ codes "sentrydns_global_cb_trips_total"
    ∷ codes "sentrydns_short_wait_expired_total"
    ∷ []

abbrev pub counter_values : Metrics → List ℕ
counter_values m =
    m.queries_total ∷ m.path_tld ∷ m.path_prefer_iran ∷ m.path_store ∷ m.path_learn ∷ m.path_static
    ∷ m.queries_cached ∷ m.cache_miss ∷ m.queries_retried ∷ m.queries_servfail
    ∷ m.queries_rate_limited ∷ m.queries_global_limited ∷ m.loop_detections ∷ m.learned_total
    ∷ m.store_removed ∷ m.store_cleaned ∷ m.iran_timeouts ∷ m.global_timeouts ∷ m.tcp_fallback_count
    ∷ m.global_fallback_count ∷ m.iran_cb_skipped ∷ m.iran_cb_trips ∷ m.global_cb_skipped
    ∷ m.global_cb_trips ∷ m.short_wait_expired ∷ []

abbrev pub gauge_names : List Text
gauge_names =
    codes "sentrydns_uptime_seconds"
    ∷ codes "sentrydns_start_time_seconds"
    ∷ codes "sentrydns_cache_hit_ratio"
    ∷ codes "sentrydns_learned_today"
    ∷ codes "sentrydns_store_size"
    ∷ codes "sentrydns_last_update_timestamp_seconds"
    ∷ codes "sentrydns_last_update_success"
    ∷ codes "sentrydns_iran_avg_latency_seconds"
    ∷ codes "sentrydns_global_avg_latency_seconds"
    ∷ codes "sentrydns_global_fallback_avg_latency_seconds"
    ∷ codes "sentrydns_in_flight_queries"
    ∷ codes "sentrydns_iran_cb_open"
    ∷ codes "sentrydns_global_cb_open"
    ∷ []

-- An average latency in seconds; a count of zero leaves the zero value.
abbrev pub average_seconds : (fmt : Format) → ℕ → ℕ → fmt.Float
average_seconds fmt total count =
    if ltb 0 count
    then fmt.quotient (fmt.quotient (fmt.float total) (fmt.float count)) (fmt.float 1000000000)
    else fmt.float 0

abbrev pub or_zero : Option ℕ → ℕ
or_zero none = 0
or_zero (some t) = t

abbrev pub gauge_values : (fmt : Format) → Clock → Metrics → List fmt.Float
gauge_values fmt clock m =
    fmt.quotient (fmt.float clock.since) (fmt.float 1000000000)
    ∷ fmt.float m.start_time
    ∷ (if ltb 0 m.queries_total
        then fmt.quotient (fmt.float m.queries_cached) (fmt.float m.queries_total)
        else fmt.float 0)
    ∷ fmt.float (learned_today_value m)
    ∷ fmt.float clock.store_size
    ∷ fmt.float (or_zero m.last_update_time)
    ∷ fmt.float (if m.last_update_success then 1 else 0)
    ∷ average_seconds fmt m.iran_latency_total m.iran_query_count
    ∷ average_seconds fmt m.global_latency_total m.global_query_count
    ∷ average_seconds fmt m.global_fallback_latency_total m.global_fallback_count
    ∷ fmt.float m.in_flight_queries
    ∷ fmt.float m.iran_cb_open
    ∷ fmt.float m.global_cb_open
    ∷ []

-- What one `Fprintf` writes: the help, the type and the value of a metric.
abbrev pub block : Text → Text → Text → Text → Text
block typ help name value =
    codes "# HELP "
    ++ name
    ++ b' ' ∷ help
    ++ b'\n' ∷ codes "# TYPE "
    ++ name
    ++ b' ' ∷ typ
    ++ b'\n' ∷ name
    ++ b' ' ∷ value
    ++ b'\n' ∷ []

abbrev pub write_block : Text → Option Text → Option Text
write_block text none = none
write_block text (some rest) = some (text ++ rest)

-- One of the handler's loops over a list of metrics. `none` is the panic of an index past the end of the
-- names or of the values.
unfoldable pub write_blocks : Text → List PromMetric → List Text → List Text → Option Text
write_blocks typ [] names values = some []
write_blocks typ (d ∷ ds) [] values = none
write_blocks typ (d ∷ ds) (name ∷ names) [] = none
write_blocks typ (d ∷ ds) (name ∷ names) (v ∷ vs) =
    write_block (block typ d.help name v) (write_blocks typ ds names vs)

abbrev pub both_parts : Option Text → Option Text → Option Text
both_parts (some s) (some t) = some (s ++ t)
both_parts (some s) none = none
both_parts none t = none

unfoldable pub prometheus_handler : Format → Clock → Metrics → Option Text
unfolding write_blocks format_float
prometheus_handler fmt clock m =
    both_parts
      (write_blocks (codes "counter") prom_defs counter_names (map fmt.decimal (counter_values m)))
      (write_blocks (codes "gauge") prom_gauge_defs gauge_names
        (map (format_float fmt) (gauge_values fmt clock m)))
