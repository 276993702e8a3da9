-- ===== src/Classifier/Tests.antt =====
-- The classifier on a file with one range, and its theorems there.
use sentrydns.Base.{◌≡◌, refl, ◌↔◌, true, false, some, [], ◌∷◌, ◌++◌, Text, codes, Any}
use sentrydns.LearnedFile.{lines}
use sentrydns.Netip.{Addr}
use sentrydns.Netip.Sample.{sample, range, parse_addr, parse_prefix}
use sentrydns.Classifier.{Classifier, ok, no_ranges, new, is_iran, reload}
use sentrydns.Classifier.Ranges.{is_range_of, is_iran_iff}

abbrev text : Text
text = codes "# ranges" ++ 10 ∷ codes "5.22.0.0/17" ++ 10 ∷ codes "none" ++ 10 ∷ []

abbrev built : Classifier
built = record { iran_ranges4 = range ∷ []; iran_ranges6 = [] }

program : Unit {0}
unfolding new is_iran reload lines parse_addr parse_prefix
program = tt

builds : new sample true (some text) ≡ ok built
unfolding program
builds = refl

answers :
    (is_iran sample built (codes "5.22.0.9") ≡ true)
    × (is_iran sample built (codes "8.0.0.8") ≡ false)
    × (is_iran sample built (codes "x") ≡ false)
unfolding program
answers = (refl, refl, refl)

refuses : reload sample true (some (codes "none")) built ≡ (built, some no_ranges)
unfolding program
refuses = refl

is_iran_iff_example : (is_iran sample built (codes "5.22.0.9") ≡ true) ↔ (
    (t : Text) × (ip : Addr) × (some text ≡ some t)
    × (sample.parse_addr (codes "5.22.0.9") ≡ some ip)
    × Any (λ line. is_range_of sample ip line ≡ true) (lines t))
is_iran_iff_example = is_iran_iff sample true (some text) built (codes "5.22.0.9") builds
