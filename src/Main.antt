-- ===== src/Main.antt =====
-- cmd/sentrydns/main.go: the whole program, from its start to its exit. The parts share one record of
-- metrics, the learned file and the state file: here the store has the files and its counters, and each
-- part its own counters, which `gathered` puts together. What the goroutines do after the start is a
-- list of happenings; a happening is one call that one of them makes.
pub mod Start
pub mod Life
pub mod Started
pub mod Known
pub mod Counts
pub mod Bounds
pub mod Clean
mod Tests
use sentrydns.Base.{
  ℕ, ◌*◌, ◌/◌, Bool, true, false, not, Option, none, some, List, [], ◌∷◌, if◌then◌else◌, or_else,
  Text, ℤ, pos_part,
}
use sentrydns.Breaker.{Gauge}
use sentrydns.Cache
use sentrydns.Cache.{Entry}
use sentrydns.Classifier
use sentrydns.Classifier.{Classifier, LoadError, Result, ok, err}
use sentrydns.Config
use sentrydns.Config.{Config, Yaml, Loaded, failed, loaded}
use sentrydns.LearnedFile.{is_nil}
use sentrydns.Metrics
use sentrydns.Metrics.{restore_from_file, reset_daily_stats}
use sentrydns.RateLimit
use sentrydns.RateLimit.{ClientState}
use sentrydns.Resolver
use sentrydns.Resolver.{Resolver, World}
use sentrydns.Resolver.Handle
use sentrydns.Server.{Net, Server, Arrival, start, start_resolver, update_interval, handle}
use sentrydns.Server.Schedule.{cleanup_delay}
use sentrydns.StateFile.{Json, SaveCalls}
use sentrydns.Store
use sentrydns.Store.{Counters, flush_persist, fire_rewrite, flush_state}
use sentrydns.Updater
use sentrydns.Updater.{Updater, Cidr, Download, schedule_from_mtime}

-- What the program uses of other packages.
pub record Site : Type 0 where
  pub world : World
  pub net : Net
  pub json : Json
  pub cidr : Cidr
  pub yaml : Yaml

-- The files that the program reads at its start, where they are there.
pub record Disk : Type 0 where
  pub config : Option Text
  pub learned : Option Text
  pub ranges : Option Text
  pub state : Option Text

-- Whether the log directory could be made, the file of ranges read to its end, and the learned file read
-- or not there; when the file of ranges was changed; and the time in nanoseconds and the day.
pub record Outcomes : Type 0 where
  pub made : Bool
  pub scanned : Bool
  pub readable : Bool
  pub mtime : Option ℕ
  pub now : ℕ
  pub time_of_day : ℕ
  pub today : Text

-- The ways in which `main` ends before it serves.
pub data Exit : Type 0 where
  no_config : Config.Error → Exit
  no_log_dir : Exit
  no_classifier : LoadError → Exit
  no_store : Exit

-- `first_update` is `none` where there is no updater; the time until the first update is `none` where it
-- is due now. `first_cleanup` is the delay, with the schedule if there is one.
pub record Process : Type 0 where
  pub cfg : Config
  pub resolver : Resolver
  pub server : Server
  pub ranges : Option Text
  pub first_update : Option (Option ℕ)
  pub first_cleanup : ℕ × Option (ℕ × ℕ)
  pub last_update_time : Option ℕ
  pub last_update_success : Bool
  pub start_time : ℕ

pub data Boot : Type 0 where
  exits : Exit → Boot
  runs : Process → Boot

-- `ensureLogDir`: whether it returns no error.
unfoldable pub ensure_log_dir : Text → Bool → Bool
ensure_log_dir log_file made = if is_nil log_file then true else made

abbrev pub second : ℕ
second = 1000000000

-- The counters of the shared metrics that the store and the resolver write.
abbrev pub store_counters : Metrics.Metrics → Counters
store_counters m = record {
  learned_total = m.learned_total;
  learned_total_at_midnight = m.learned_total_at_midnight;
  store_removed = m.store_removed;
  store_cleaned = m.store_cleaned;
}

abbrev pub query_counters : Metrics.Metrics → Resolver.Metrics
query_counters m = record {
  queries_total = m.queries_total;
  queries_cached = m.queries_cached;
  cache_miss = m.cache_miss;
  queries_retried = m.queries_retried;
  queries_servfail = m.queries_servfail;
  queries_iran = m.queries_iran;
  queries_global = m.queries_global;
  path_static = m.path_static;
  path_tld = m.path_tld;
  path_prefer_iran = m.path_prefer_iran;
  path_store = m.path_store;
  path_learn = m.path_learn;
  iran_query_count = m.iran_query_count;
  iran_timeouts = m.iran_timeouts;
  iran_latency_total = m.iran_latency_total;
  iran_cb_skipped = m.iran_cb_skipped;
  global_query_count = m.global_query_count;
  global_timeouts = m.global_timeouts;
  global_latency_total = m.global_latency_total;
  global_cb_skipped = m.global_cb_skipped;
  global_fallback_count = m.global_fallback_count;
  global_fallback_latency_total = m.global_fallback_latency_total;
  tcp_fallback_count = m.tcp_fallback_count;
  short_wait_expired = m.short_wait_expired;
  in_flight_queries = m.in_flight_queries;
}

abbrev pub no_counters : Counters
no_counters = store_counters (Metrics.new 0)

-- The shared metrics, which the endpoints read.
unfoldable pub gathered : Process → Metrics.Metrics
gathered p =
    let q = p.server.live.metrics in
    let c = or_else p.server.live.store.metrics no_counters in
    record {
      queries_total = q.queries_total;
      queries_iran = q.queries_iran;
      queries_global = q.queries_global;
      queries_retried = q.queries_retried;
      queries_servfail = q.queries_servfail;
      queries_cached = q.queries_cached;
      cache_miss = q.cache_miss;
      learned_total = c.learned_total;
      learned_total_at_midnight = c.learned_total_at_midnight;
      path_tld = q.path_tld;
      path_prefer_iran = q.path_prefer_iran;
      path_store = q.path_store;
      path_learn = q.path_learn;
      path_static = q.path_static;
      iran_latency_total = q.iran_latency_total;
      iran_query_count = q.iran_query_count;
      iran_timeouts = q.iran_timeouts;
      global_latency_total = q.global_latency_total;
      global_query_count = q.global_query_count;
      global_timeouts = q.global_timeouts;
      tcp_fallback_count = q.tcp_fallback_count;
      global_fallback_count = q.global_fallback_count;
      global_fallback_latency_total = q.global_fallback_latency_total;
      store_removed = c.store_removed;
      store_cleaned = c.store_cleaned;
      in_flight_queries = q.in_flight_queries;
      queries_rate_limited = p.server.queries_rate_limited;
      queries_global_limited = p.server.queries_global_limited;
      loop_detections = p.server.loop_detections;
      iran_cb_skipped = q.iran_cb_skipped;
      iran_cb_trips = p.server.live.iran_cb.1.trips_total;
      iran_cb_open = p.server.live.iran_cb.1.open_gauge;
      global_cb_skipped = q.global_cb_skipped;
      global_cb_trips = p.server.live.global_cb.1.trips_total;
      global_cb_open = p.server.live.global_cb.1.open_gauge;
      short_wait_expired = q.short_wait_expired;
      last_update_time = p.last_update_time;
      last_update_success = p.last_update_success;
      start_time = p.start_time;
      has_state = p.server.live.store.has_state;
    }

abbrev pub change_store : (Store.Store → Store.Store) → Server → Server
change_store f s = record s { live = record s.live { store = f s.live.store } }

-- The updater with what it shares with the other parts.
abbrev pub updater_of : Process → Updater
updater_of p = record {
  classifier = p.resolver.classifier;
  file = p.ranges;
  has_state = p.server.live.store.has_state;
  state_file = p.server.live.store.state_file;
  last_update_time = p.last_update_time;
  last_update_success = p.last_update_success;
}
