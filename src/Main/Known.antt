-- ===== src/Main/Known.antt =====
-- The learned domains over the life of the program, its exit and its next start.
use sentrydns.Base.{
  not, ◌/◌, ℕ, ◌≡◌, sym, ap, ◌∙◌, subst, true, false, Option, none, some, List, [], ◌∷◌, Text, All,
  or_else, arith,
}
use sentrydns.LearnedFile.{load_lines, lines}
use sentrydns.StateFile.{SaveCalls}
use sentrydns.Store
use sentrydns.Domain.{covers, normalize}
use sentrydns.Resolver.Handle
use sentrydns.Store.{flush_state, save_learned_today, Counters, flush_persist, fire_rewrite}
use sentrydns.Store.Durability.{
  Reach, next, flushing, rewriting, cleaning, stopping, saving, sharing, WroteFile, Reach-restart,
  domains-new,
}
use sentrydns.Server.Restart.{IsNamed, handle-Reach}
use sentrydns.Updater
use sentrydns.Metrics
use sentrydns.LearnedFile.{is_nil}
use sentrydns.Updater.{Download}
use sentrydns.Main.{Site, Disk, Outcomes, Process, runs, store_counters, updater_of, second}
use sentrydns.Main.Start.{read_store, state_of, boot}
use sentrydns.Main.Life.{
  Happening, arrives, downloads, cleans, flushes, rewrites, saves, midnight, sweeps, forgets,
  download, with_updater, end_day, take_place, live, shutdown,
}
use sentrydns.Main.Started.{boot-Started, set_up-Reach, set_up-domains}

-- The learned file can be written, and queries are for names that a line of it can hold.
abbrev pub IsSmooth : Happening → Type 0
IsSmooth (arrives a) = IsNamed a
IsSmooth (downloads d) = Unit
IsSmooth (cleans calls written now verdicts) = written ≡ true
IsSmooth (flushes opened) = opened ≡ true
IsSmooth (rewrites written) = written ≡ true
IsSmooth (saves calls) = Unit
IsSmooth (midnight calls today) = Unit
IsSmooth (sweeps now order) = Unit
IsSmooth (forgets now orders) = Unit

-- The store of a process can be reached from an earlier one.
abbrev From : Store.Store → Process → Type 0
From before p = Reach before p.server.live.store

with_updater-From :
    (before : Store.Store) (u : Option (Option ℕ)) (p q : Process)
    → From before p
    → From before q
    → From before (with_updater u p q)
with_updater-From before none p q k l = k
with_updater-From before (some wait) p q k l = l

download-From :
    (site : Site) (d : Download) (before : Store.Store) (p : Process)
    → From before p
    → From before (download site d p)
unfolding download
download-From site d before p k =
    let s = p.server.live.store in
    next k (
      sharing s s.metrics
        (Updater.update site.json site.world.net site.cidr d (updater_of p)).state_file)

take_place-From :
    (site : Site) (before : Store.Store) (h : Happening) (p : Process)
    → IsSmooth h
    → From before p
    → From before (take_place site h p)
unfolding take_place end_day
take_place-From site before (arrives a) p named k =
    handle-Reach site.world site.net p.cfg p.resolver before a p.server named k
take_place-From site before (downloads d) p h k =
    with_updater-From before p.first_update p (download site d p) k
      (download-From site d before p k)
take_place-From site before (cleans calls written now verdicts) p h k =
    let s = p.server.live.store in
    subst (λ b. Reach before (Store.cleanup site.json calls b now verdicts s)) (sym h)
      (next k (cleaning s site.json calls now verdicts))
take_place-From site before (flushes opened) p h k =
    subst (λ b. Reach before (flush_persist b p.server.live.store)) (sym h)
      (next k (flushing p.server.live.store))
take_place-From site before (rewrites written) p h k =
    subst (λ b. Reach before (fire_rewrite b p.server.live.store)) (sym h)
      (next k (rewriting p.server.live.store))
take_place-From site before (saves calls) p h k =
    next k (saving p.server.live.store site.json calls)
take_place-From site before (midnight calls today) p h k = next k (sharing p.server.live.store _ _)
take_place-From site before (sweeps now order) p h k = k
take_place-From site before (forgets now orders) p h k = k

live-From :
    (site : Site) (before : Store.Store) (hs : List Happening) (p : Process)
    → All IsSmooth hs
    → From before p
    → From before (live site hs p)
unfolding live
live-From site before [] p h k = k
live-From site before (h ∷ hs) p (smooth, rest) k =
    live-From site before hs (take_place site h p) rest (take_place-From site before h p smooth k)

stop-same :
    (site : Site) (calls : SaveCalls) (today : Text) (s : Store.Store)
    → ((Store.stop site.json calls today s).domains ≡ s.domains)
      × ((Store.stop site.json calls today s).file ≡ s.file)
unfolding Store.stop save_learned_today flush_state
stop-same site calls today s = ground arith

is_iran-domains :
    (s t : Store.Store) (q : Text) → s.domains ≡ t.domains → Store.is_iran s q ≡ Store.is_iran t q
unfolding Store.is_iran
is_iran-domains s t q e = ap (λ m. covers m (normalize q)) e

-- The program starts, does whatever it does, ends with the last flush done, and starts again on the files it
-- left, where each time it gets to serve. If the learned file can be written and the queries are for
-- names that a line of it can hold, then the new start takes for Iranian every name that the program
-- took for Iranian at its end, whatever else its goroutines did and whatever became of the state
-- file. The learned file of the first start must be one that the program wrote, or missing.
pub boot-shutdown :
    (site : Site) (o o' : Outcomes) (disk : Disk) (config : Option Text) (p p' : Process)
    (hs : List Happening) (calls : SaveCalls) (today : Text) (ls : List Text) (q : Text)
    → boot site o disk ≡ runs p
    → WroteFile disk.learned ls
    → All IsSmooth hs
    → boot site o' (shutdown site calls today (some true) config (live site hs p)) ≡ runs p'
    → Store.is_iran (live site hs p).server.live.store q ≡ true
    → Store.is_iran p'.server.live.store q ≡ true
unfolding shutdown Handle.stop
boot-shutdown site o o' disk config p p' hs calls today ls q starts wrote smooth again known =
    let (cfg, c, e) = boot-Started site o disk p starts in
    let disk' = shutdown site calls today (some true) config (live site hs p) in
    let (cfg', c', e') = boot-Started site o' disk' p' again in
    let before = read_store o disk cfg in
    let began = subst (From before) (sym e) (set_up-Reach site o disk cfg c) in
    let s = (live site hs p).server.live.store in
    let ended = next (live-From site before hs p smooth began) (stopping s site.json calls today) in
    let t = Store.stop site.json calls today s in
    let same = (stop-same site calls today s).0 in
    let knows =
      Reach-restart (some (store_counters (Metrics.new (o.now / second)))) none
        (not (is_nil cfg.state_file)) false disk.learned (state_of disk cfg) none ls q wrote ended
        (is_iran-domains t s q same ∙ known) in
    let next_start : p'.server.live.store.domains
        ≡ load_lines (lines (or_else disk'.learned [])) [] =
      ap (λ v. v.server.live.store.domains) e' ∙ set_up-domains site o' disk' cfg' c' in
    let file = (flush_persist true t).file in
    is_iran-domains p'.server.live.store (Store.new none false file none) q
      (next_start ∙ sym (domains-new none false file none))
    ∙ knows

-- Where the program exits before the flusher gets to its last flush, the next start knows just what is in
-- the learned file at that time: what was learned since the flush before, and is only in the buffer,
-- is lost.
pub boot-unflushed :
    (site : Site) (o : Outcomes) (config : Option Text) (p p' : Process) (calls : SaveCalls)
    (today q : Text)
    → boot site o (shutdown site calls today none config p) ≡ runs p'
    → Store.is_iran p'.server.live.store q
      ≡ Store.is_iran (Store.new none false p.server.live.store.file none) q
unfolding shutdown Handle.stop
boot-unflushed site o config p p' calls today q again =
    let disk' = shutdown site calls today none config p in
    let (cfg', c', e') = boot-Started site o disk' p' again in
    let file = p.server.live.store.file in
    let same = (stop-same site calls today p.server.live.store).1 in
    is_iran-domains p'.server.live.store (Store.new none false file none) q (
      ap (λ v. v.server.live.store.domains) e'
      ∙ set_up-domains site o disk' cfg' c'
      ∙ ap (λ f. load_lines (lines (or_else f [])) []) same
      ∙ sym (domains-new none false file none))
