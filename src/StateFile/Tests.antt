-- ===== src/StateFile/Tests.antt =====
-- Updates of the state file.
use sentrydns.Base.{◌+◌, ◌≡◌, refl, false, none, List, [], ◌∷◌}
use sentrydns.StateFile.{State, zero_state, load, save, update}
use sentrydns.StateFile.Sample.{json, works}
use sentrydns.StateFile.Atomic.{Change, updates}

abbrev learn : State → State
learn s = record s { learned_total_count = s.learned_total_count + 1 }

abbrev changes : List Change
changes =
    record { calls = works; fn = learn }
    ∷ record { calls = record works { synced = false }; fn = learn }
    ∷ record { calls = works; fn = learn }
    ∷ []

two_of_three : load json (updates json changes none) ≡ record zero_state { learned_total_count = 2 }
unfolding updates update save load
two_of_three = refl
