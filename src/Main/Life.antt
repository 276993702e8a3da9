-- ===== src/Main/Life.antt =====
-- What the program does after its start, one call of one goroutine after the other, and its shutdown.
use sentrydns.Base.{ℕ, Bool, Option, none, some, List, [], ◌∷◌, Text}
use sentrydns.Cache
use sentrydns.Cache.{Entry}
use sentrydns.Metrics.{reset_daily_stats}
use sentrydns.RateLimit
use sentrydns.RateLimit.{ClientState}
use sentrydns.Resolver
use sentrydns.Resolver.{Resolver, World}
use sentrydns.Resolver.Handle
use sentrydns.Server.{Server, Arrival, handle}
use sentrydns.StateFile.{SaveCalls}
use sentrydns.Store
use sentrydns.Store.{Counters, flush_persist, fire_rewrite, flush_state}
use sentrydns.Updater
use sentrydns.Updater.{Updater, Cidr, Download, schedule_from_mtime}
use sentrydns.Main.{Site, Disk, Process, gathered, change_store, updater_of}

-- A query arrives; the updater downloads; a cleanup ends with its verdicts; the flusher, the timer of the
-- rewrite and the timer of the state fire; the day ends; the sweepers of the cache and the limiter run.
pub data Happening : Type 0 where
  arrives : Arrival → Happening
  downloads : Download → Happening
  cleans : SaveCalls → Bool → ℕ → List (Text × Bool) → Happening
  flushes : Bool → Happening
  rewrites : Bool → Happening
  saves : SaveCalls → Happening
  midnight : SaveCalls → Text → Happening
  sweeps : ℕ → List (Text × Entry) → Happening
  forgets : ℕ → List (List (Text × ClientState)) → Happening

abbrev pub change_server : (Server → Server) → Process → Process
change_server f p = record p { server = f p.server }

abbrev pub at_midnight : ℕ → Option Counters → Option Counters
at_midnight n none = none
at_midnight n (some c) = some (record c { learned_total_at_midnight = n })

-- What the updater changes in the parts that it shares.
unfoldable pub download : Site → Download → Process → Process
unfolding Updater.update
download site d p =
    let u = Updater.update site.json site.world.net site.cidr d (updater_of p) in
    record p {
      resolver = record p.resolver { classifier = u.classifier };
      server = change_store (λ s. record s { state_file = u.state_file }) p.server;
      ranges = u.file;
      last_update_time = u.last_update_time;
      last_update_success = u.last_update_success;
    }

-- Without an updater there is no download.
abbrev pub with_updater : Option (Option ℕ) → Process → Process → Process
with_updater none p changed = p
with_updater (some wait) p changed = changed

unfoldable pub end_day : Site → SaveCalls → Text → Process → Process
unfolding gathered reset_daily_stats
end_day site calls today p =
    let (m, f) =
      reset_daily_stats site.json calls today (gathered p) p.server.live.store.state_file in
    change_server
      (change_store (λ s. record s {
        metrics = at_midnight m.learned_total_at_midnight s.metrics;
        state_file = f;
      }))
      p

unfoldable pub take_place : Site → Happening → Process → Process
unfolding download end_day
take_place site (arrives a) p = record p {
  server = (handle site.world site.net p.cfg p.resolver a p.server).0;
}
take_place site (downloads d) p = with_updater p.first_update p (download site d p)
take_place site (cleans calls written now verdicts) p =
    change_server (change_store (Store.cleanup site.json calls written now verdicts)) p
take_place site (flushes opened) p = change_server (change_store (flush_persist opened)) p
take_place site (rewrites written) p = change_server (change_store (fire_rewrite written)) p
take_place site (saves calls) p = change_server (change_store (flush_state site.json calls)) p
take_place site (midnight calls today) p = end_day site calls today p
take_place site (sweeps now order) p =
    change_server
      (λ s. record s { live = record s.live { cache = Cache.sweep now order s.live.cache } }) p
take_place site (forgets now orders) p =
    change_server (λ s. record s { limiter = RateLimit.cleanup now orders s.limiter }) p

unfoldable pub live : Site → List Happening → Process → Process
unfolding take_place
live site [] p = p
live site (h ∷ hs) p = live site hs (take_place site h p)

abbrev pub last_flush : Option Bool → Store.Store → Store.Store
last_flush none s = s
last_flush (some opened) s = flush_persist opened s

-- The end of `main`: `Stop` of the resolver and the store. The flusher writes its buffer once more when it
-- sees the closed channel, if it gets to that before the program exits.
unfoldable pub shutdown : Site → SaveCalls → Text → Option Bool → Option Text → Process → Disk
shutdown site calls today flushed config p =
    let stopped = Resolver.Handle.stop p.server.live in
    let s = Store.stop site.json calls today stopped.store in
    let left = last_flush flushed s in
    record { config = config; learned = left.file; ranges = p.ranges; state = left.state_file }
