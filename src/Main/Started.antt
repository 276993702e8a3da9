-- ===== src/Main/Started.antt =====
-- What is known of the program where its start succeeds.
use sentrydns.Base.{◌≡◌, refl, sym, ap, ◌∙◌, subst, Option, none, some, [], ℤ, or_else, arith}
use sentrydns.Classifier
use sentrydns.Classifier.{Classifier, Result, ok, err}
use sentrydns.Config
use sentrydns.Config.{Config, Loaded, failed, loaded}
use sentrydns.LearnedFile.{load_lines, lines}
use sentrydns.Store.Durability
use sentrydns.Store.Durability.{
  Reach, next, flushing, rewriting, cleaning, stopping, saving, sharing, WroteFile, Reach-restart,
  domains-new,
}
use sentrydns.Server.{update_interval}
use sentrydns.Server.Restart.{start-store}
use sentrydns.Main.{Site, Disk, Outcomes, Process, runs, store_counters}
use sentrydns.Main.Start.{
  defer_update, first_process, first_store, read_store, restored, state_of, start_updater, set_up,
  with_classifier, with_config, boot,
}

-- What the program is where it gets to serve.
abbrev pub Started : Site → Outcomes → Disk → Process → Type 0
Started site o disk p = (cfg : Config) × (c : Classifier) × (p ≡ set_up site o disk cfg c)

with_classifier-Started :
    (site : Site) (o : Outcomes) (disk : Disk) (cfg : Config) (r : Result Classifier) (p : Process)
    → with_classifier site o disk cfg r ≡ runs p
    → Started site o disk p
with_classifier-Started site o disk cfg (err e) p h = absurd (ground arith)
with_classifier-Started site o disk cfg (ok c) p h = (cfg, c, ground arith)

with_config-Started :
    (site : Site) (o : Outcomes) (disk : Disk) (l : Loaded) (p : Process)
    → with_config site o disk l ≡ runs p
    → Started site o disk p
with_config-Started site o disk (failed e) p h = absurd (ground arith)
with_config-Started site o disk (loaded cfg (some e)) p h = absurd (ground arith)
with_config-Started site o disk (loaded cfg none) p h =
    with_classifier-Started site o disk cfg (Classifier.new site.world.net o.scanned disk.ranges) p
      (ground arith)

pub boot-Started :
    (site : Site) (o : Outcomes) (disk : Disk) (p : Process)
    → boot site o disk ≡ runs p
    → Started site o disk p
unfolding boot
boot-Started site o disk p h =
    with_config-Started site o disk (Config.load site.yaml site.net.ip_text disk.config) p h

defer_update-server :
    (o : Outcomes) (i : Option ℤ) (p : Process) → (defer_update o i p).server ≡ p.server
defer_update-server o none p = refl
defer_update-server o (some interval) p = refl

pub start_updater-server :
    (site : Site) (o : Outcomes) (p : Process) → (start_updater site o p).server ≡ p.server
unfolding start_updater
start_updater-server site o p = defer_update-server o (update_interval site.net p.cfg) p

pub set_up-store :
    (site : Site) (o : Outcomes) (disk : Disk) (cfg : Config) (c : Classifier)
    → (set_up site o disk cfg c).server.live.store ≡ first_store site o disk cfg
unfolding set_up
set_up-store site o disk cfg c =
    ap (λ s. s.live.store) (start_updater-server site o (first_process site o disk cfg c))
    ∙ start-store site.net cfg (first_store site o disk cfg) _ _ _ o.now

-- The program starts with the store that it reads from the learned file.
pub set_up-Reach :
    (site : Site) (o : Outcomes) (disk : Disk) (cfg : Config) (c : Classifier)
    → Reach (read_store o disk cfg) (set_up site o disk cfg c).server.live.store
set_up-Reach site o disk cfg c =
    let s = read_store o disk cfg in
    let m = store_counters (restored site o disk cfg) in
    subst (Reach s) (sym (set_up-store site o disk cfg c))
      (next Durability.start (sharing s (some m) s.state_file))

-- Its domains are those of the learned file.
pub set_up-domains :
    (site : Site) (o : Outcomes) (disk : Disk) (cfg : Config) (c : Classifier)
    → (set_up site o disk cfg c).server.live.store.domains
      ≡ load_lines (lines (or_else disk.learned [])) []
set_up-domains site o disk cfg c =
    ap (λ s. s.domains) (set_up-store site o disk cfg c)
    ∙ domains-new _ _ disk.learned (state_of disk cfg)

defer_update-cfg : (o : Outcomes) (i : Option ℤ) (p : Process) → (defer_update o i p).cfg ≡ p.cfg
defer_update-cfg o none p = refl
defer_update-cfg o (some interval) p = refl

pub set_up-cfg :
    (site : Site) (o : Outcomes) (disk : Disk) (cfg : Config) (c : Classifier)
    → (set_up site o disk cfg c).cfg ≡ cfg
unfolding set_up start_updater
set_up-cfg site o disk cfg c =
    defer_update-cfg o (update_interval site.net cfg) (first_process site o disk cfg c)
