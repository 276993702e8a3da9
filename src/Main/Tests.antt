-- ===== src/Main/Tests.antt =====
-- A run of the whole program, and the theorems about it there.
use sentrydns.Base.{
  ℕ, ◌≡◌, refl, arith, ◌⊎◌, true, false, some, none, [], ◌∷◌, List, codes, if◌then◌else◌, Text,
  to_lower, text_eq, text_eq_iff, Bool-cases, inl, inr, sym, subst, find, insert,
}
use sentrydns.Breaker.{is_open, watched_step, record_success}
use sentrydns.Cache
use sentrydns.Cache.Sound.{self_order}
use sentrydns.Classifier
use sentrydns.Classifier.{Classifier}
use sentrydns.Config
use sentrydns.Config.{Config, default_config, validate}
use sentrydns.Config.Ttl.{uint32}
use sentrydns.Dns.{empty_msg}
use sentrydns.Domain.{normalize, has, covers, after_dot}
use sentrydns.LearnedFile.{is_nil, render, lines}
use sentrydns.LearnedFile.RoundTrip.{IsName}
use sentrydns.Metrics.{learned_today_value, restore_from_file}
use sentrydns.Netip.Sample.{parse_addr, ip_string, parse_prefix, range}
use sentrydns.RateLimit
use sentrydns.RateLimit.{allow, allow_global, new_global}
use sentrydns.Resolver.Sample
use sentrydns.Resolver.Sample.{ask, names_types}
use sentrydns.Resolver.{World}
use sentrydns.Resolver.Filter.{
  is_hijacked, extract, extract_ips, static_lookup, is_iran_tld, is_prefer_iran, set_static_records,
  resolve_addr, server_fail,
}
use sentrydns.Resolver.Query.{query, query_iran_dns, address}
use sentrydns.Resolver.Learning.{resolve_with_learning, is_iranian_reply}
use sentrydns.Resolver.Route.{resolve}
use sentrydns.Resolver.Handle.{fly, resolve_request, stop, set_timeout, set_global_timeout}
use sentrydns.Resolver.Setup
use sentrydns.Server.{
  Arrival, start, start_resolver, handle, loop_ips, watched, settings, update_interval,
}
use sentrydns.Server.Safety.{IsOk}
use sentrydns.StateFile
use sentrydns.StateFile.Sample.{json, works, reads_back}
use sentrydns.Store
use sentrydns.Main.{
  Site, Disk, Outcomes, Process, runs, exits, no_config, no_classifier, ensure_log_dir, gathered,
}
use sentrydns.Main.Start.{boot, set_up}
use sentrydns.Main.Life.{Happening, arrives, sweeps, midnight, live, shutdown, take_place}
use sentrydns.Main.Known.{boot-shutdown, boot-unflushed}
use sentrydns.Main.Counts.{boot-shutdown_counts}
use sentrydns.Resolver.Clean.{is_clean, HonestGlobal}
use sentrydns.Resolver.Hijack.{with_ranges, Flown, SharesFlights}
use sentrydns.Main.Clean.{live-clean}
use sentrydns.Main.Bounds.{boot-IsOk}

abbrev cfg : Config
cfg = record default_config { iran_dns = codes "ir:53"; global_dns = codes "gl:53"; iran_tlds = [] }

-- While a query for `a.ir.` is in flight, its reply is shared.
abbrev shared_key : Text
shared_key = codes "a.ir.:A"

abbrev w : World
w = record Sample.w {
  shared = λ n key. if text_eq key shared_key then some Sample.domestic else none;
}

abbrev site : Site
site = record {
  world = w;
  net = record {
    ip_text = record { parse_ip = λ s. none };
    split_host = λ s. none;
    parse_duration = λ s. none;
    set_rcode = λ req rcode. record empty_msg { id = req.id; rcode = rcode };
  };
  json = json;
  cidr = record { is_cidr = λ s. false };
  yaml = record { decode = λ text c. some cfg };
}

abbrev files : Disk
files = record {
  config = some (codes "x");
  learned = none;
  ranges = some (codes "5.22.0.0/17");
  state = none;
}

abbrev morning : Outcomes
morning = record {
  made = true;
  scanned = true;
  readable = true;
  mtime = none;
  now = 0;
  time_of_day = 0;
  today = codes "d";
}

abbrev c : Classifier
c = record { iran_ranges4 = range ∷ []; iran_ranges6 = [] }

abbrev p : Process
p = set_up site morning files cfg c

program : Unit {0}
unfolding boot set_up ensure_log_dir Config.load validate Classifier.new parse_prefix lines text_eq
program = tt

starts : boot site morning files ≡ runs p
unfolding program
starts = refl

refuses :
    (boot site morning (record files { ranges = none })
      ≡ exits (no_classifier Classifier.not_opened))
    × (boot site morning (record files { config = none }) ≡ exits (no_config Config.not_opened))
unfolding program
refuses = (refl, refl)

abbrev from : ℕ → Arrival
from now = record { remote = codes "c"; req = ask (codes "x.com."); now = now }

-- A query, the sweep of the cache, the end of the day, and a query again.
abbrev day : List Happening
day = arrives (from 1) ∷ sweeps 2 [] ∷ midnight works (codes "e") ∷ arrives (from 3) ∷ []

resolves : Unit {0}
unfolding program handle start start_resolver update_interval Store.new Store.add Store.is_iran
    Setup.new_live settings RateLimit.new new_global resolve_request resolve resolve_with_learning
    query address query_iran_dns extract extract_ips is_hijacked is_iranian_reply Classifier.is_iran
    Cache.get Cache.set Cache.new Cache.make_key Cache.sweep static_lookup is_iran_tld
    is_prefer_iran is_open parse_addr ip_string normalize has find insert covers after_dot text_eq
    allow allow_global loop_ips watched live shutdown take_place stop Store.stop RateLimit.shard_at
    RateLimit.put_shard Cache.response_min_ttl Cache.store uint32 set_global_timeout set_timeout
    set_static_records Setup.new resolve_addr server_fail watched_step record_success
    restore_from_file StateFile.load
resolves = tt

named : IsName (normalize (codes "x.com."))
unfolding resolves
named = record { solid = ground arith; kept = refl }

knows : Store.is_iran (live site day p).server.live.store (codes "www.x.com") ≡ true
unfolding resolves
knows = refl

-- The files that the program leaves after that day.
abbrev next_files : Disk
next_files = shutdown site works (codes "e") (some true) (some (codes "x")) (live site day p)

starts_again : boot site morning next_files ≡ runs (set_up site morning next_files cfg c)
unfolding resolves
starts_again = refl

boot-shutdown_example :
    Store.is_iran (set_up site morning next_files cfg c).server.live.store (codes "www.x.com")
    ≡ true
boot-shutdown_example =
    boot-shutdown site morning morning files (some (codes "x")) p
      (set_up site morning next_files cfg c) day works (codes "e") [] (codes "www.x.com") starts
      (unfold render in (refl, tt)) (named, (tt, (tt, (named, tt)))) starts_again knows

-- The same without the last flush.
abbrev cut_files : Disk
cut_files = shutdown site works (codes "e") none (some (codes "x")) (live site day p)

cut_starts : boot site morning cut_files ≡ runs (set_up site morning cut_files cfg c)
unfolding resolves
cut_starts = refl

boot-unflushed_example :
    Store.is_iran (set_up site morning cut_files cfg c).server.live.store (codes "www.x.com")
    ≡ Store.is_iran
        (Store.new none false (live site day p).server.live.store.file none)
        (codes "www.x.com")
boot-unflushed_example =
    boot-unflushed site morning (some (codes "x")) (live site day p)
      (set_up site morning cut_files cfg c) works (codes "e") (codes "www.x.com") cut_starts

boot-IsOk_example : IsOk (live site day p).server
boot-IsOk_example = boot-IsOk site morning files p day (λ n m d. self_order m d) starts

abbrev counts : Store.Counters
counts = record {
  learned_total = 1;
  learned_total_at_midnight = 1;
  store_removed = 0;
  store_cleaned = 0;
}

counted :
    ((live site day p).server.live.store.metrics ≡ some counts)
    × ((live site day p).server.live.store.has_state ≡ true)
    × (is_nil (set_up site morning next_files cfg c).cfg.state_file ≡ false)
unfolding resolves
counted = (refl, refl, refl)

boot-shutdown_counts_example :
    (((StateFile.update json works
          (Store.merge_learned (Store.learned_state (codes "e") counts))
          (live site day p).server.live.store.state_file).1
        ≡ false)
      × (next_files.state ≡ (live site day p).server.live.store.state_file))
    ⊎ (((gathered (set_up site morning next_files cfg c)).learned_total ≡ 1)
        × (learned_today_value (gathered (set_up site morning next_files cfg c)) ≡ 0))
unfolding text_eq
boot-shutdown_counts_example =
    boot-shutdown_counts site morning (some (codes "x")) (live site day p)
      (set_up site morning next_files cfg c) works (codes "e") (some true) counts reads_back
      counted.0 counted.1 starts_again counted.2

flies :
    (fly w (with_ranges c p.resolver) (ask (codes "a.ir.")) 1 (codes "a.ir.") Sample.fresh).1
    ≡ Sample.domestic
unfolding resolves fly
flies = refl

flown : Flown w p.resolver shared_key Sample.domestic
unfolding to_lower
flown = record {
  ranges = c;
  req = ask (codes "a.ir.");
  q = record { name = codes "a.ir."; qtype = 1 };
  qs = [];
  state = Sample.fresh;
  asked = refl;
  same_key = refl;
  reply = sym flies;
}

shares_flights : SharesFlights w p.resolver
shares_flights n key m e = elim (Bool-cases (text_eq key shared_key)) [
  | inl same ↦
      let k : key ≡ shared_key = (text_eq_iff key shared_key).0 same in
      let told : m ≡ Sample.domestic = ground (arith, e, same) in
      subst (λ x. Flown w p.resolver x m) (sym k)
        (subst (λ x. Flown w p.resolver shared_key x) (sym told) flown)
  | inr other ↦ absurd (ground (arith, e, other))
]

global_clean : HonestGlobal w p.resolver
unfolding resolves
global_clean = (λ n t timeout req. refl, λ e n t timeout req. refl)

abbrev last : Arrival
last = record { remote = codes "c"; req = ask (codes "a.ir."); now = 4 }

live-clean_example :
    let z = live site day p in
    is_clean w p.resolver (handle w site.net z.cfg z.resolver last z.server).1 ≡ true
live-clean_example =
    live-clean site morning files p day last (record { name = codes "a.ir."; qtype = 1 }) [] starts
      (λ req. refl) global_clean names_types shares_flights (λ req rcode. refl) refl
      (unfold resolves in refl) refl
