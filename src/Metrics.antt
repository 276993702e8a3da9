-- ===== src/Metrics.antt =====
-- internal/metrics/metrics.go: the counters, what is restored of them at the start, the reset at midnight
-- and the uptime. The date, the clock and the outcome of a system call are arguments; the state file is a
-- value beside the record. The children are internal/metrics/server.go and prometheus.go, and theorems.
pub mod Learned
mod Tests
pub mod Endpoints
pub mod Prometheus
pub mod Scrape
pub mod Uptime
pub mod Floats
use sentrydns.Base.{
  ℕ, ◌+◌, ◌-◌, ◌*◌, ◌/◌, ◌%◌, Bool, true, false, not, ◌&&◌, Option, none, some, List, [], ◌∷◌, ◌++◌,
  ltb, text_eq, if◌then◌else◌, Text, codes,
}
use sentrydns.StateFile.{State, Json, SaveCalls, load, update}

-- `start_time` is in seconds. `has_state` is false where the path of the state file is empty.
pub record Metrics : Type 0 where
  pub queries_total : ℕ
  pub queries_iran : ℕ
  pub queries_global : ℕ
  pub queries_retried : ℕ
  pub queries_servfail : ℕ
  pub queries_cached : ℕ
  pub cache_miss : ℕ
  pub learned_total : ℕ
  pub learned_total_at_midnight : ℕ
  pub path_tld : ℕ
  pub path_prefer_iran : ℕ
  pub path_store : ℕ
  pub path_learn : ℕ
  pub path_static : ℕ
  pub iran_latency_total : ℕ
  pub iran_query_count : ℕ
  pub iran_timeouts : ℕ
  pub global_latency_total : ℕ
  pub global_query_count : ℕ
  pub global_timeouts : ℕ
  pub tcp_fallback_count : ℕ
  pub global_fallback_count : ℕ
  pub global_fallback_latency_total : ℕ
  pub store_removed : ℕ
  pub store_cleaned : ℕ
  pub in_flight_queries : ℕ
  pub queries_rate_limited : ℕ
  pub queries_global_limited : ℕ
  pub loop_detections : ℕ
  pub iran_cb_skipped : ℕ
  pub iran_cb_trips : ℕ
  pub iran_cb_open : ℕ
  pub global_cb_skipped : ℕ
  pub global_cb_trips : ℕ
  pub global_cb_open : ℕ
  pub short_wait_expired : ℕ
  pub last_update_time : Option ℕ
  pub last_update_success : Bool
  pub start_time : ℕ
  pub has_state : Bool

-- `New`, at a time in seconds.
abbrev pub new : ℕ → Metrics
new now = record {
  queries_total = 0;
  queries_iran = 0;
  queries_global = 0;
  queries_retried = 0;
  queries_servfail = 0;
  queries_cached = 0;
  cache_miss = 0;
  learned_total = 0;
  learned_total_at_midnight = 0;
  path_tld = 0;
  path_prefer_iran = 0;
  path_store = 0;
  path_learn = 0;
  path_static = 0;
  iran_latency_total = 0;
  iran_query_count = 0;
  iran_timeouts = 0;
  global_latency_total = 0;
  global_query_count = 0;
  global_timeouts = 0;
  tcp_fallback_count = 0;
  global_fallback_count = 0;
  global_fallback_latency_total = 0;
  store_removed = 0;
  store_cleaned = 0;
  in_flight_queries = 0;
  queries_rate_limited = 0;
  queries_global_limited = 0;
  loop_detections = 0;
  iran_cb_skipped = 0;
  iran_cb_trips = 0;
  iran_cb_open = 0;
  global_cb_skipped = 0;
  global_cb_trips = 0;
  global_cb_open = 0;
  short_wait_expired = 0;
  last_update_time = none;
  last_update_success = false;
  start_time = now;
  has_state = false;
}

unfoldable pub learned_today_value : Metrics → ℕ
learned_today_value m =
    let midnight = m.learned_total_at_midnight in
    let total = m.learned_total in if ltb total midnight then 0 else total - midnight

-- What `RestoreFromFile` makes of the learned counts of the state on the day `today`. The counts are not
-- negative, so the subtraction is negative where the count of the day is the larger.
unfoldable pub midnight_of : Text → State → ℕ
midnight_of today st =
    if text_eq st.learned_today_date today && ltb 0 st.learned_total_at_midnight
    then st.learned_total_at_midnight
    else if text_eq st.learned_today_date today
    then (if ltb st.learned_total_count st.learned_today_count
        then st.learned_total_count
        else st.learned_total_count - st.learned_today_count)
    else st.learned_total_count

unfoldable pub restore_from_file : Json → Text → Option Text → Bool → Metrics → Metrics
unfolding midnight_of
restore_from_file json today file has_state m =
    let st = load json file in
    record m {
      has_state = has_state;
      learned_total = st.learned_total_count;
      learned_total_at_midnight = midnight_of today st;
      last_update_time =
          if ltb 0 st.last_update_unix then some st.last_update_unix else m.last_update_time;
      last_update_success = st.last_update_success;
    }

-- What the goroutine of `resetDailyStats` does when its timer fires, with the state file.
unfoldable pub reset_daily_stats :
    Json → SaveCalls → Text → Metrics → Option Text → Metrics × Option Text
reset_daily_stats json calls today m file =
    let total = m.learned_total in
    let changed = λ (st : State). record st {
      learned_today_date = today;
      learned_today_count = 0;
      learned_total_at_midnight = total;
    } in
    (
      record m { learned_total_at_midnight = total },
      if m.has_state then (update json calls changed file).0 else file,
    )

-- `Uptime` with the time since the start in nanoseconds, rounded to seconds. `decimal` is the `%d` of
-- `fmt.Sprintf`.
unfoldable pub uptime : (ℕ → Text) → ℕ → Text
uptime decimal since =
    let d = (since + 500000000) / 1000000000 in
    let days = d / 3600 / 24 in
    let hours = d / 3600 % 24 in
    let minutes = d / 60 % 60 in
    let seconds = d % 60 in
    if ltb 0 days
    then decimal days ++ codes "d " ++ decimal hours ++ codes "h " ++ decimal minutes ++ codes "m"
    else if ltb 0 hours
    then decimal hours ++ codes "h " ++ decimal minutes ++ codes "m"
    else decimal minutes ++ codes "m " ++ decimal seconds ++ codes "s"
