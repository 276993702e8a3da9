-- ===== src/Main/Counts.antt =====
-- The learned counts over an exit of the program and its next start.
use sentrydns.Base.{
  ◌/◌, ◌-◌, ◌≡◌, refl, sym, ap, ◌∙◌, true, false, not, Option, none, some, Text, text_eq, inl, inr,
  ◌⊎◌, arith, if◌then◌else◌, Bool,
}
use sentrydns.Classifier.{Classifier}
use sentrydns.Config.{Config}
use sentrydns.LearnedFile.{is_nil}
use sentrydns.Metrics
use sentrydns.Metrics.{learned_today_value, restore_from_file}
use sentrydns.Metrics.Learned.{stop-restore_from_file}
use sentrydns.Resolver.Handle
use sentrydns.StateFile.{ReadsBack, SaveCalls, update}
use sentrydns.Store
use sentrydns.Store.{Counters, flush_persist, learned_state, merge_learned}
use sentrydns.Main.{Site, Disk, Outcomes, Process, runs, second, gathered}
use sentrydns.Main.Start.{boot, set_up, restored}
use sentrydns.Main.Started.{boot-Started, set_up-store, set_up-cfg}
use sentrydns.Main.Life.{last_flush, shutdown}

state_file-last_flush :
    (flushed : Option Bool) (s : Store.Store) → (last_flush flushed s).state_file ≡ s.state_file
unfolding flush_persist
state_file-last_flush none s = refl
state_file-last_flush (some opened) s = ground arith

-- The shared metrics have the learned counts that the start restores.
gathered-set_up :
    (site : Site) (o : Outcomes) (disk : Disk) (cfg : Config) (c : Classifier)
    → let g = gathered (set_up site o disk cfg c) in
      (g.learned_total ≡ (restored site o disk cfg).learned_total)
      × (learned_today_value g ≡ learned_today_value (restored site o disk cfg))
unfolding gathered learned_today_value
gathered-set_up site o disk cfg c =
    let e = ap (λ s. s.metrics) (set_up-store site o disk cfg c) in rw e (refl, refl)

-- With a path for the state file the start restores from it.
restored-path :
    (site : Site) (o : Outcomes) (disk : Disk) (cfg : Config)
    → is_nil cfg.state_file ≡ false
    → restored site o disk cfg
      ≡ restore_from_file site.json o.today disk.state true (Metrics.new (o.now / second))
restored-path site o disk cfg path =
    ap
      (λ b.
        restore_from_file site.json o.today (if b then none else disk.state) (not b)
          (Metrics.new (o.now / second)))
      path

-- The program ends, with or without the last flush, and starts again on the files it left, with a path
-- for the state file both times. Either the update of the state file reported a failure at the end,
-- and the file is as it was; or the shared metrics have the number of all learned domains again, and the number of those
-- learned that day where it is still the same day, else 0. The state format must read back what it
-- wrote.
pub boot-shutdown_counts :
    (site : Site) (o : Outcomes) (config : Option Text) (p p' : Process) (calls : SaveCalls)
    (today : Text) (flushed : Option Bool) (c : Counters)
    → ReadsBack site.json
    → p.server.live.store.metrics ≡ some c
    → p.server.live.store.has_state ≡ true
    → boot site o (shutdown site calls today flushed config p) ≡ runs p'
    → is_nil p'.cfg.state_file ≡ false
    → (((update site.json calls
            (merge_learned (learned_state today c))
            p.server.live.store.state_file).1
          ≡ false)
        × ((shutdown site calls today flushed config p).state ≡ p.server.live.store.state_file))
      ⊎ (((gathered p').learned_total ≡ c.learned_total)
          × (learned_today_value (gathered p') ≡ (
              if text_eq today o.today then c.learned_total - c.learned_total_at_midnight else 0)))
unfolding shutdown Handle.stop
boot-shutdown_counts site o config p p' calls today flushed c back counted has_state again path =
    let s = p.server.live.store in
    let t = Store.stop site.json calls today s in
    let disk' = shutdown site calls today flushed config p in
    let (cfg', c', e') = boot-Started site o disk' p' again in
    let written : disk'.state ≡ t.state_file = state_file-last_flush flushed t in
    let path' =
      sym (ap (λ k. is_nil k.state_file) (ap (λ v. v.cfg) e' ∙ set_up-cfg site o disk' cfg' c'))
      ∙ path in
    let fresh = Metrics.new (o.now / second) in
    let got = restored-path site o disk' cfg' path' in
    let from_file = ap (λ f. restore_from_file site.json o.today f true fresh) written in
    let (total, day) = gathered-set_up site o disk' cfg' c' in
    let whole = ap gathered e' in
    elim (stop-restore_from_file site.json calls today o.today s c fresh back counted has_state) [
      | inl (failed, same) ↦ inl (failed, written ∙ same)
      | inr (count, learned) ↦ inr (
        ap (λ g. g.learned_total) whole
            ∙ total
            ∙ ap (λ g. g.learned_total) (got ∙ from_file)
            ∙ count,
        ap learned_today_value whole ∙ day ∙ ap learned_today_value (got ∙ from_file) ∙ learned,
      )
    ]
