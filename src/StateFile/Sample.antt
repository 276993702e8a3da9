-- ===== src/StateFile/Sample.antt =====
-- A format that writes one number for each field, the date last, and a disk that works, for the tests.
use sentrydns.Base.{ℕ, Bool, true, false, Option, none, some, ◌∷◌, Text, arith, ◌==◌}
use sentrydns.StateFile.{State, Json, ReadsBack, SaveCalls}

abbrev pub flag : Bool → ℕ
flag true = 1
flag false = 0

abbrev pub write : State → Text
write s =
    s.last_update_unix
    ∷ flag s.last_update_success
    ∷ s.last_cleanup_unix
    ∷ s.learned_today_count
    ∷ s.learned_total_count
    ∷ s.learned_total_at_midnight
    ∷ s.learned_today_date

abbrev pub read : Text → Option State
read (u ∷ b ∷ c ∷ n ∷ t ∷ m ∷ date) = some (record {
  last_update_unix = u;
  last_update_success = b == 1;
  last_cleanup_unix = c;
  learned_today_date = date;
  learned_today_count = n;
  learned_total_count = t;
  learned_total_at_midnight = m;
})
read short = none

abbrev pub json : Json
json = record { marshal = λ s. some (write s); unmarshal = read }

pub reads_back : ReadsBack json
reads_back s t h = ground arith

abbrev pub works : SaveCalls
works = record { created = true; written = true; synced = true; closed = true; renamed = true }
