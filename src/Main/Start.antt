-- ===== src/Main/Start.antt =====
-- The start of `main` of cmd/sentrydns/main.go, up to the state in which it serves, and each early exit.
use sentrydns.Base.{ℕ, ◌/◌, not, Option, ℤ, none, some, if◌then◌else◌, pos_part, Text}
use sentrydns.Classifier
use sentrydns.Classifier.{Classifier, LoadError, Result, ok, err}
use sentrydns.Config
use sentrydns.Config.{Config, Yaml, Loaded, failed, loaded}
use sentrydns.LearnedFile.{is_nil}
use sentrydns.Metrics
use sentrydns.Metrics.{restore_from_file, reset_daily_stats}
use sentrydns.Server.{Server, start, start_resolver, update_interval}
use sentrydns.Server.Schedule.{cleanup_delay}
use sentrydns.Store
use sentrydns.Store.{Counters, flush_persist, fire_rewrite, flush_state}
use sentrydns.Updater.{schedule_from_mtime}
use sentrydns.Main.{
  Site, Disk, Outcomes, no_config, no_log_dir, no_classifier, no_store, Process, Boot, exits, runs,
  ensure_log_dir, second, store_counters, query_counters, updater_of,
}

-- The time of the last update in seconds, where the updater has just read the time of the file.
abbrev pub touched : Option ℕ → Option ℕ → Option ℕ
touched none before = before
touched (some mtime) before = some (mtime / second)

-- `updater.New` and the first step of `Start`, at this interval.
abbrev pub defer_update : Outcomes → Option ℤ → Process → Process
defer_update o none p = p
defer_update o (some interval) p =
    let (u, wait) = schedule_from_mtime o.mtime (pos_part interval) o.now (updater_of p) in
    record p {
      first_update = some wait;
      last_update_time = touched o.mtime p.last_update_time;
      last_update_success = u.last_update_success;
    }

-- The same where there is an updater.
unfoldable pub start_updater : Site → Outcomes → Process → Process
unfolding schedule_from_mtime
start_updater site o p = defer_update o (update_interval site.net p.cfg) p

-- The text of the state file, where the configuration has a path for it.
abbrev pub state_of : Disk → Config → Option Text
state_of disk cfg = if is_nil cfg.state_file then none else disk.state

-- `metrics.New` and `RestoreFromFile`.
abbrev pub restored : Site → Outcomes → Disk → Config → Metrics.Metrics
restored site o disk cfg =
    restore_from_file site.json o.today (state_of disk cfg) (not (is_nil cfg.state_file))
      (Metrics.new (o.now / second))

-- `store.New` with the metrics before they are restored.
abbrev pub read_store : Outcomes → Disk → Config → Store.Store
read_store o disk cfg =
    Store.new (some (store_counters (Metrics.new (o.now / second)))) (not (is_nil cfg.state_file))
      disk.learned (state_of disk cfg)

-- The store once they are.
abbrev pub first_store : Site → Outcomes → Disk → Config → Store.Store
first_store site o disk cfg = record (read_store o disk cfg) {
  metrics = some (store_counters (restored site o disk cfg));
}

abbrev pub first_server : Site → Outcomes → Disk → Config → Server
first_server site o disk cfg =
    let m = restored site o disk cfg in
    start site.net cfg (first_store site o disk cfg) (query_counters m)
      (record { trips_total = m.iran_cb_trips; open_gauge = m.iran_cb_open })
      (record { trips_total = m.global_cb_trips; open_gauge = m.global_cb_open }) o.now

-- Before the updater is made.
abbrev pub first_process : Site → Outcomes → Disk → Config → Classifier → Process
first_process site o disk cfg c =
    let m = restored site o disk cfg in
    record {
      cfg = cfg;
      resolver = start_resolver site.world c cfg;
      server = first_server site o disk cfg;
      ranges = disk.ranges;
      first_update = none;
      first_cleanup = cleanup_delay site.net cfg o.time_of_day;
      last_update_time = m.last_update_time;
      last_update_success = m.last_update_success;
      start_time = m.start_time;
    }

-- `main` from `metrics.New` on.
unfoldable pub set_up : Site → Outcomes → Disk → Config → Classifier → Process
unfolding start_updater
set_up site o disk cfg c = start_updater site o (first_process site o disk cfg c)

abbrev pub with_store : Site → Outcomes → Disk → Config → Classifier → Boot
with_store site o disk cfg c =
    if o.readable then runs (set_up site o disk cfg c) else exits no_store

abbrev pub with_classifier : Site → Outcomes → Disk → Config → Result Classifier → Boot
with_classifier site o disk cfg (err e) = exits (no_classifier e)
with_classifier site o disk cfg (ok c) = with_store site o disk cfg c

abbrev pub with_config : Site → Outcomes → Disk → Loaded → Boot
with_config site o disk (failed e) = exits (no_config e)
with_config site o disk (loaded cfg (some e)) = exits (no_config e)
with_config site o disk (loaded cfg none) =
    let next =
      with_classifier site o disk cfg (Classifier.new site.world.net o.scanned disk.ranges) in
    if ensure_log_dir cfg.log_file o.made then next else exits no_log_dir

unfoldable pub boot : Site → Outcomes → Disk → Boot
unfolding ensure_log_dir set_up
boot site o disk = with_config site o disk (Config.load site.yaml site.net.ip_text disk.config)
