-- ===== src/Main/Bounds.antt =====
-- What holds of the server all through the life of the program.
use sentrydns.Base.{
  refl, ℕ, ◌≡◌, sym, ◌∙◌, subst, Option, none, some, List, [], ◌∷◌, Text, Dict, Distinct, delete,
  delete-Distinct, ltb, Bool-cases, inl, inr,
}
use sentrydns.Cache
use sentrydns.Cache.{Cache, Entry, sweep_loop}
use sentrydns.Cache.Bounds
use sentrydns.Cache.Bounds.{Reach-IsValid, next, sweeping}
use sentrydns.Cache.Sound.{IsSound}
use sentrydns.Classifier.{Classifier}
use sentrydns.Config.{Config}
use sentrydns.Metrics.{restore_from_file}
use sentrydns.RateLimit
use sentrydns.RateLimit.{ClientState, Limiter}
use sentrydns.RateLimit.Window.{HasShards}
use sentrydns.RateLimit.Sweep.{length-clean_all}
use sentrydns.Resolver.{World}
use sentrydns.Resolver.Cached.{Ranges}
use sentrydns.Server.{Server}
use sentrydns.Server.Guards.{run}
use sentrydns.Server.Safety.{IsOk, run-IsOk}
use sentrydns.Server.Serve.{run-start-IsOk}
use sentrydns.Store
use sentrydns.Main.{Site, Disk, Outcomes, Process, runs, query_counters, change_store}
use sentrydns.Main.Start.{boot, set_up, restored, first_store, first_process}
use sentrydns.Main.Started.{boot-Started, start_updater-server}
use sentrydns.Main.Life.{
  Happening, arrives, downloads, cleans, flushes, rewrites, saves, midnight, sweeps, forgets,
  download, with_updater, end_day, take_place, live,
}

sweep_loop-Distinct :
    (now : ℕ) (order : List (Text × Entry)) (m : Dict Entry)
    → Distinct m
    → Distinct (sweep_loop now order m)
unfolding sweep_loop
sweep_loop-Distinct now [] m d = d
sweep_loop-Distinct now ((k, e) ∷ rest) m d = elim (Bool-cases (ltb e.expires now)) [
  | inl past ↦ rw past (sweep_loop-Distinct now rest (delete k m) (delete-Distinct k m d))
  | inr current ↦ rw current (sweep_loop-Distinct now rest m d)
]

sweep-IsSound :
    (w : World) (now : ℕ) (order : List (Text × Entry)) (c : Cache)
    → IsSound c
    → IsSound (Cache.sweep now order c)
unfolding Cache.sweep
sweep-IsSound w now order c v = record {
  valid = Reach-IsValid {lib = w.lib} v.valid (next Bounds.start (sweeping c now order));
  distinct = sweep_loop-Distinct now order c.entries v.distinct;
}

cleanup-HasShards :
    (now : ℕ) (orders : List (List (Text × ClientState))) (l : Limiter)
    → HasShards l
    → HasShards (RateLimit.cleanup now orders l)
unfolding RateLimit.cleanup
cleanup-HasShards now orders l h = length-clean_all l.window now orders l.shards ∙ h

-- A change of the store alone.
change_store-IsOk : (t : Store.Store) (s : Server) → IsOk s → IsOk (change_store (λ old. t) s)
change_store-IsOk t s k = record {
  cache = k.cache;
  active = k.active;
  in_flight = k.in_flight;
  shards = k.shards;
}

with_updater-IsOk :
    (u : Option (Option ℕ)) (p q : Process)
    → IsOk p.server
    → IsOk q.server
    → IsOk (with_updater u p q).server
with_updater-IsOk none p q k l = k
with_updater-IsOk (some wait) p q k l = l

take_place-IsOk :
    (site : Site) (h : Happening) (p : Process)
    → Ranges site.world
    → IsOk p.server
    → IsOk (take_place site h p).server
unfolding take_place download end_day run
take_place-IsOk site (arrives a) p o k =
    run-IsOk site.world site.net p.cfg p.resolver (a ∷ []) p.server o k
take_place-IsOk site (downloads d) p o k =
    with_updater-IsOk p.first_update p (download site d p) k (change_store-IsOk _ p.server k)
take_place-IsOk site (cleans calls written now verdicts) p o k = change_store-IsOk _ p.server k
take_place-IsOk site (flushes opened) p o k = change_store-IsOk _ p.server k
take_place-IsOk site (rewrites written) p o k = change_store-IsOk _ p.server k
take_place-IsOk site (saves calls) p o k = change_store-IsOk _ p.server k
take_place-IsOk site (midnight calls today) p o k = change_store-IsOk _ p.server k
take_place-IsOk site (sweeps now order) p o k = record {
  cache = sweep-IsSound site.world now order p.server.live.cache k.cache;
  active = k.active;
  in_flight = k.in_flight;
  shards = k.shards;
}
take_place-IsOk site (forgets now orders) p o k = record {
  cache = k.cache;
  active = k.active;
  in_flight = k.in_flight;
  shards = cleanup-HasShards now orders p.server.limiter k.shards;
}

live-IsOk :
    (site : Site) (hs : List Happening) (p : Process)
    → Ranges site.world
    → IsOk p.server
    → IsOk (live site hs p).server
unfolding live
live-IsOk site [] p o k = k
live-IsOk site (h ∷ hs) p o k =
    live-IsOk site hs (take_place site h p) o (take_place-IsOk site h p o k)

set_up-IsOk :
    (site : Site) (o : Outcomes) (disk : Disk) (cfg : Config) (c : Classifier)
    → Ranges site.world
    → IsOk (set_up site o disk cfg c).server
unfolding set_up restore_from_file run
set_up-IsOk site o disk cfg c ranges =
    let first = first_process site o disk cfg c in
    let k =
      run-start-IsOk site.world site.net cfg first.resolver [] (first_store site o disk cfg)
        (query_counters (restored site o disk cfg)) _ _ o.now ranges refl in
    subst IsOk (sym (start_updater-server site o first)) k

-- From its start to its end, whatever the program does and whatever comes from outside: whenever no query is
-- being answered, the count of active queries, on which `Stop` waits, and the gauge of queries in flight
-- are 0, so each query has taken back what it added on whatever path it ended; the cache keeps to its
-- limit with every key bound once; and the limiter keeps its shards. A `range` must visit each binding
-- of a map once.
pub boot-IsOk :
    (site : Site) (o : Outcomes) (disk : Disk) (p : Process) (hs : List Happening)
    → Ranges site.world
    → boot site o disk ≡ runs p
    → IsOk (live site hs p).server
boot-IsOk site o disk p hs ranges starts =
    let (cfg, c, e) = boot-Started site o disk p starts in
    live-IsOk site hs p ranges
      (subst (λ v. IsOk v.server) (sym e) (set_up-IsOk site o disk cfg c ranges))
