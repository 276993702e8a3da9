-- ===== src/Domain/Tests.antt =====
-- Runs of the suffix loop, and its theorems at concrete names.
use sentrydns.Base.{◌≡◌, refl, ◌↔◌, Bool, true, false, some, [], ◌∷◌, codes, text_eq, Dict, find}
use sentrydns.Domain.{normalize, after_dot, has, walk_domain, covers}
use sentrydns.Domain.Suffix.{Covered, walk_domain_iff}

abbrev tlds : Dict Bool
tlds = (codes "ir", true) ∷ (codes "example.com", true) ∷ []

program : Unit {0}
unfolding normalize has walk_domain covers find text_eq after_dot
program = tt

runs :
    (covers tlds (normalize (codes "WWW.Site.IR.")) ≡ true)
    × (covers tlds (normalize (codes "a.b.example.com")) ≡ true)
    × (covers tlds (normalize (codes "myir.com")) ≡ false)
    × (covers tlds (normalize (codes "com")) ≡ false)
unfolding program
runs = (refl, refl, refl, refl)

walk_domain_iff_example :
    ((b : Bool) × (walk_domain tlds (codes "a.ir") ≡ some b))
    × ((walk_domain tlds (codes "a.ir") ≡ some true) ↔ Covered tlds (codes "a.ir"))
walk_domain_iff_example = walk_domain_iff tlds (codes "a.ir")
