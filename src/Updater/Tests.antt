-- ===== src/Updater/Tests.antt =====
-- Runs of the updater on a list of ten ranges, and the theorems about it there.
use sentrydns.Base.{
  refl, ◌≡◌, ◌⊎◌, true, false, some, none, [], ◌∷◌, ◌++◌, codes, Text, take, text_eq, Any,
}
use sentrydns.LearnedFile.{lines}
use sentrydns.StateFile.Sample.{json, works}
use sentrydns.Netip.Sample.{sample, range, parse_prefix}
use sentrydns.Classifier
use sentrydns.Classifier.{Classifier, err, not_read, reload}
use sentrydns.Updater.{Updater, Download, Cidr, contains_valid_cidr, update, run, max_read_bytes}
use sentrydns.Updater.Served.{Updated, update-Updated}
use sentrydns.Updater.History.{Source, run-Source, update-not_read}

abbrev cidr : Cidr
cidr = record { is_cidr = λ s. text_eq s (codes "5.22.0.0/17") }

abbrev line : Text
line = codes "5.22.0.0/17" ++ 10 ∷ []

abbrev ten : Text
ten = line ++ line ++ line ++ line ++ line ++ line ++ line ++ line ++ line ++ line

abbrev good : Download
good = record {
  reply = some (200, ten);
  created = true;
  copied = true;
  opened = true;
  seen = 10;
  renamed = true;
  reopened = true;
  scanned = true;
  now = 8;
  calls = works;
}

abbrev old : Updater
old = record {
  classifier = record { iran_ranges4 = range ∷ []; iran_ranges6 = range ∷ [] };
  file = some line;
  has_state = false;
  state_file = none;
  last_update_time = none;
  last_update_success = false;
}

program : Unit {0}
unfolding update run contains_valid_cidr Classifier.new reload lines parse_prefix text_eq
program = tt

-- A text with ten ranges is used, one with a single range is not.
updates :
    ((run json sample cidr
        (good ∷ record good { reply = some (200, line) } ∷ [])
        old).last_update_success
      ≡ false)
    × ((run json sample cidr (good ∷ []) old).last_update_success ≡ true)
    × ((run json sample cidr (good ∷ []) old).classifier.iran_ranges6 ≡ [])
unfolding program
updates = (refl, refl, refl)

update-Updated_example : Updated sample cidr good old (update json sample cidr good old)
update-Updated_example = update-Updated json sample cidr good old

run-Source_example :
    ((run json sample cidr (good ∷ good ∷ []) old).classifier ≡ old.classifier)
    ⊎ Any
        (Source sample cidr (run json sample cidr (good ∷ good ∷ []) old).classifier)
        (good ∷ good ∷ [])
run-Source_example = run-Source json sample cidr (good ∷ good ∷ []) old

abbrev long : Download
long = record good { scanned = false }

passes : contains_valid_cidr cidr long (take max_read_bytes ten) ≡ true
unfolding program
passes = refl

update-not_read_example :
    ((update json sample cidr long old).classifier ≡ old.classifier)
    × ((update json sample cidr long old).last_update_success ≡ false)
    × ((update json sample cidr long old).file ≡ some (take max_read_bytes ten))
    × (Classifier.new sample false (update json sample cidr long old).file ≡ err not_read)
update-not_read_example =
    update-not_read json sample cidr long ten old refl refl refl refl refl refl passes
