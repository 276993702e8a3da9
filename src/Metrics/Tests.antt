-- ===== src/Metrics/Tests.antt =====
-- The counters over a restart and at the endpoints, and the theorems about them there.
use sentrydns.Base.{
  refl, arith, ℕ, ◌+◌, ◌-◌, ◌*◌, ◌/◌, ◌≡◌, ◌⊎◌, true, false, some, none, [], ◌∷◌, ◌++◌, codes, Text,
  Option, text_eq, if◌then◌else◌, i64_add,
}
use sentrydns.StateFile.{State, zero_state, load, save}
use sentrydns.StateFile
use sentrydns.StateFile.Sample.{json, works, reads_back}
use sentrydns.Store.{Store, Counters, stop}
use sentrydns.Metrics.{Metrics, learned_today_value, restore_from_file, reset_daily_stats, uptime}
use sentrydns.Metrics.Learned.{reset_state, reset_daily_stats-undercounts}
use sentrydns.Metrics.Endpoints.{Format, Clock, metrics_handler}
use sentrydns.Metrics.Prometheus.{
  prometheus_handler, prom_defs, prom_gauge_defs, format_float, trim_right,
}
use sentrydns.Metrics.Scrape.{
  blocks, json_counters, json_gauges, prometheus_handler-metrics_handler,
}

abbrev fresh : Metrics
fresh = record {
  queries_total = 0;
  queries_iran = 0;
  queries_global = 0;
  queries_retried = 0;
  queries_servfail = 0;
  queries_cached = 0;
  cache_miss = 0;
  learned_total = 0;
  learned_total_at_midnight = 0;
  path_tld = 0;
  path_prefer_iran = 0;
  path_store = 0;
  path_learn = 0;
  path_static = 0;
  iran_latency_total = 0;
  iran_query_count = 0;
  iran_timeouts = 0;
  global_latency_total = 0;
  global_query_count = 0;
  global_timeouts = 0;
  tcp_fallback_count = 0;
  global_fallback_count = 0;
  global_fallback_latency_total = 0;
  store_removed = 0;
  store_cleaned = 0;
  in_flight_queries = 0;
  queries_rate_limited = 0;
  queries_global_limited = 0;
  loop_detections = 0;
  iran_cb_skipped = 0;
  iran_cb_trips = 0;
  iran_cb_open = 0;
  global_cb_skipped = 0;
  global_cb_trips = 0;
  global_cb_open = 0;
  short_wait_expired = 0;
  last_update_time = none;
  last_update_success = false;
  start_time = 0;
  has_state = true;
}

abbrev counters : Counters
counters = record {
  learned_total = 60;
  learned_total_at_midnight = 52;
  store_removed = 0;
  store_cleaned = 0;
}

abbrev store : Store
store = record {
  domains = [];
  persist_buf = [];
  persist_buf_gen = 0;
  write_gen = 0;
  metrics = some counters;
  has_state = true;
  flush_buf = none;
  flush_pending = false;
  rewrite_pending = false;
  stopped = false;
  file = none;
  state_file = none;
}

abbrev day : Text
day = codes "2026-01-01"

abbrev left : Option Text
left = (stop json works day store).state_file

program : Unit {0}
unfolding stop StateFile.update save load restore_from_file reset_daily_stats learned_today_value
    text_eq uptime trim_right format_float metrics_handler
program = tt

restores :
    (learned_today_value (restore_from_file json day left true fresh) ≡ 8)
    × (learned_today_value (restore_from_file json (codes "2026-01-02") left true fresh) ≡ 0)
unfolding program
restores = (refl, refl)

-- The file lacks ten of the sixty domains at midnight.
abbrev at_midnight : Metrics
at_midnight = record fresh { learned_total = 60 }

abbrev behind : Option Text
behind = (StateFile.update json works (λ st. record zero_state { learned_total_count = 50 }) none).0

few : (load json behind).learned_total_count + 12 ≡ 62
unfolding program
few = refl

reset_daily_stats-undercounts_example :
    let file' = (reset_daily_stats json works day at_midnight behind).1 in
    let r = restore_from_file json day file' true fresh in
    (((StateFile.update json works (reset_state day 60) behind).1 ≡ false) × (file' ≡ behind))
    ⊎ (learned_today_value (record r { learned_total = i64_add r.learned_total 12 })
        ≡ (load json behind).learned_total_count + 12 - 60)
reset_daily_stats-undercounts_example =
    reset_daily_stats-undercounts json works day at_midnight fresh behind 12 reads_back refl
      (omega arith) (omega (arith, few))

-- Floats in millionths.
abbrev fmt : Format
fmt = record {
  Float = ℕ;
  float = λ n. n * 1000000;
  quotient = λ a b. a * 1000000 / b;
  scaled = λ a n. a * n;
  percent = λ a. codes "%";
  fixed = λ a. if text_eq (a ∷ []) (100000000 ∷ []) then codes "100.000000" else codes "0.250000";
  decimal = λ n. (48 + n) ∷ [];
  date = λ t. codes "then";
  ago = λ t. codes "5m";
}

abbrev clock : Clock
clock = record { now = 9; since = 5000000000; store_size = 3 }

shows :
    (format_float fmt 100000000 ≡ codes "100")
    × (format_float fmt 250000 ≡ codes "0.25")
    × (uptime fmt.decimal 5000000000 ≡ codes "0m 5s")
unfolding program
shows = (refl, refl, refl)

prometheus_handler-metrics_handler_example :
    prometheus_handler fmt clock fresh
    ≡ some (
        blocks
          (codes "counter")
          fmt.decimal
          prom_defs
          (json_counters (metrics_handler fmt clock fresh))
        ++ blocks
            (codes "gauge")
            (format_float fmt)
            prom_gauge_defs
            (json_gauges fmt clock fresh (metrics_handler fmt clock fresh)))
prometheus_handler-metrics_handler_example = prometheus_handler-metrics_handler fmt clock fresh
