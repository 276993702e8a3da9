-- ===== src/Metrics/Learned.antt =====
-- The learned counts over a restart and over midnight.
use sentrydns.Base.{
  arith, ℕ, ◌+◌, ◌-◌, ◌<◌, ◌≡◌, Bool, true, false, Option, some, ◌^◌, i64_add, Text, ◌⊎◌, inl, inr,
  if◌then◌else◌, text_eq, text_eq_refl, ◌∙◌, ap,
}
use sentrydns.StateFile.{State, Json, ReadsBack, SaveCalls, load, update}
use sentrydns.StateFile.Atomic.{update_atomic}
use sentrydns.Store.{
  Counters, Store, learned_state, merge_learned, flush_state, save_learned_today, stop,
}
use sentrydns.Metrics.{
  Metrics, learned_today_value, midnight_of, restore_from_file, reset_daily_stats,
}

-- A state of the day `day` whose counts agree gives back the count of that day, and none on another day.
midnight_of-count :
    (day today : Text) (st : State) (total midnight : ℕ)
    → st.learned_today_date ≡ day
    → st.learned_total_count ≡ total
    → st.learned_total_at_midnight ≡ midnight
    → st.learned_today_count ≡ total - midnight
    → total - midnight_of today st ≡ (if text_eq day today then total - midnight else 0)
unfolding midnight_of
midnight_of-count day today st total midnight same t m c =
    let e = ap (λ d. text_eq d today) same in ground arith

learned_today_value_lem :
    (m : Metrics) → learned_today_value m ≡ m.learned_total - m.learned_total_at_midnight
unfolding learned_today_value
learned_today_value_lem m = ground arith

-- What a start restores from a file that holds these counts.
restore_from_file-counts :
    (json : Json) (day today : Text) (file : Option Text) (has_state : Bool) (m : Metrics)
    (total midnight : ℕ)
    → (load json file).learned_today_date ≡ day
    → (load json file).learned_total_count ≡ total
    → (load json file).learned_total_at_midnight ≡ midnight
    → (load json file).learned_today_count ≡ total - midnight
    → ((restore_from_file json today file has_state m).learned_total ≡ total)
      × (learned_today_value (restore_from_file json today file has_state m)
          ≡ (if text_eq day today then total - midnight else 0))
unfolding restore_from_file
restore_from_file-counts json day today file has_state m total midnight d t n c = (
  t,
  learned_today_value_lem (restore_from_file json today file has_state m)
      ∙ ap (λ k. k - midnight_of today (load json file)) t
      ∙ midnight_of-count day today (load json file) total midnight d t n c,
)

stop-state_file :
    (json : Json) (calls : SaveCalls) (day : Text) (s : Store) (c : Counters)
    → s.metrics ≡ some c
    → s.has_state ≡ true
    → (stop json calls day s).state_file
      ≡ (update json calls (merge_learned (learned_state day c)) s.state_file).0
unfolding stop save_learned_today flush_state
stop-state_file json calls day s c has_metrics has_state = ground arith

-- When a store that has a state file and counters stops, either the update of the state file reported a
-- failure, and the file is the one it was; or the next start restores the number of all learned domains from the file, and, on
-- the same day, the number of domains learned that day, and on another day 0. The state format must
-- read back what it wrote.
pub stop-restore_from_file :
    (json : Json) (calls : SaveCalls) (day today : Text) (s : Store) (c : Counters) (m : Metrics)
    → ReadsBack json
    → s.metrics ≡ some c
    → s.has_state ≡ true
    → (((update json calls (merge_learned (learned_state day c)) s.state_file).1 ≡ false)
        × ((stop json calls day s).state_file ≡ s.state_file))
      ⊎ (((restore_from_file json today (stop json calls day s).state_file true m).learned_total
            ≡ c.learned_total)
          × (learned_today_value
                (restore_from_file json today (stop json calls day s).state_file true m)
              ≡ (if text_eq day today then c.learned_total - c.learned_total_at_midnight else 0)))
stop-restore_from_file json calls day today s c m back has_metrics has_state =
    let written = stop-state_file json calls day s c has_metrics has_state in
    let st = merge_learned (learned_state day c) (load json s.state_file) in
    elim (update_atomic json calls (merge_learned (learned_state day c)) s.state_file back) [
      | inr (failed, same) ↦ inl (failed, written ∙ same)
      | inl (done, loads) ↦
          let e = ap (load json) written ∙ loads in
          inr (
            restore_from_file-counts json day today (stop json calls day s).state_file true m
              c.learned_total c.learned_total_at_midnight (ap (λ v. v.learned_today_date) e)
              (ap (λ v. v.learned_total_count) e) (ap (λ v. v.learned_total_at_midnight) e)
              (ap (λ v. v.learned_today_count) e))
    ]

-- The change that the reset makes to the state file.
abbrev pub reset_state : Text → ℕ → State → State
reset_state today total st = record st {
  learned_today_date = today;
  learned_today_count = 0;
  learned_total_at_midnight = total;
}

reset_daily_stats-file :
    (json : Json) (calls : SaveCalls) (today : Text) (m : Metrics) (file : Option Text)
    → m.has_state ≡ true
    → (reset_daily_stats json calls today m file).1
      ≡ (update json calls (reset_state today m.learned_total) file).0
unfolding reset_daily_stats
reset_daily_stats-file json calls today m file has_state = ground (arith, has_state)

midnight_of-reset :
    (today : Text) (total : ℕ) (st : State)
    → 0 < total
    → midnight_of today (reset_state today total st) ≡ total
unfolding midnight_of
midnight_of-reset today total st positive = ground (arith, text_eq_refl today)

-- The reset at midnight writes the count of midnight to the state file but not the count of all
-- learned domains, which the file holds from an earlier time. Either the update of the
-- file reported a failure, and the file is as it was; or, if the process crashes on the new day, the next one starts from the older
-- count, so of the `n` domains it then learns, only those count as learned that day that exceed
-- what the file lacked at midnight. The state format must read back what it wrote, the count at
-- midnight must be positive, and the count must not wrap.
pub reset_daily_stats-undercounts :
    (json : Json) (calls : SaveCalls) (today : Text) (m m' : Metrics) (file : Option Text) (n : ℕ)
    → ReadsBack json
    → m.has_state ≡ true
    → 0 < m.learned_total
    → (load json file).learned_total_count + n < 2 ^ 63
    → let file' = (reset_daily_stats json calls today m file).1 in
      let r = restore_from_file json today file' true m' in
      (((update json calls (reset_state today m.learned_total) file).1 ≡ false) × (file' ≡ file))
      ⊎ (learned_today_value (record r { learned_total = i64_add r.learned_total n })
          ≡ (load json file).learned_total_count + n - m.learned_total)
unfolding restore_from_file learned_today_value
reset_daily_stats-undercounts json calls today m m' file n back has_state positive small =
    let written = reset_daily_stats-file json calls today m file has_state in
    elim (update_atomic json calls (reset_state today m.learned_total) file back) [
      | inr (failed, same) ↦ inl (failed, written ∙ same)
      | inl (done, loads) ↦
          let e = ap (load json) written ∙ loads in
          let mid =
            ap (midnight_of today) e
            ∙ midnight_of-reset today m.learned_total (load json file) positive in
          let total = ap (λ v. v.learned_total_count) e in inr (ground arith)
    ]
