-- ===== src/Store.antt =====
-- internal/store/store.go: the domains learned so far, in memory, in a write buffer and in a file.
-- The disk is part of the record: `file` is the text of the learned file, `state_file` that of the
-- state file. A pending timer is a flag, and what it calls is an operation of its own. The outcome of
-- a system call, the date, the clock and the order of a `range` are arguments.
pub mod Answers
pub mod Persistence
pub mod Durability
pub mod Defects
pub mod Cleanup
pub mod Workers
pub mod Loops
mod Tests
use sentrydns.Base.{
  ℕ, ◌+◌, ◌-◌, ◌*◌, ◌%◌, Bool, true, false, not, ◌&&◌, Option, none, some, List, [], ◌∷◌, ◌++◌,
  ◌==◌, ltb, if◌then◌else◌, Text, Dict, insert, delete, keys, i64_inc, i64_add, or_else,
}
use sentrydns.Domain.{normalize, has, covers}
use sentrydns.LearnedFile.{lines, load_lines, render, sort}
use sentrydns.StateFile.{State, zero_state, Json, SaveCalls, update}

-- The counters of internal/metrics that the store writes.
pub record Counters : Type 0 where
  pub learned_total : ℕ
  pub learned_total_at_midnight : ℕ
  pub store_removed : ℕ
  pub store_cleaned : ℕ

-- `metrics` is `none` where the source's pointer is nil, and `has_state` is false where the path of
-- the state file is empty.
pub record Store : Type 0 where
  pub domains : Dict Bool
  pub persist_buf : List Text
  pub persist_buf_gen : ℕ
  pub write_gen : ℕ
  pub metrics : Option Counters
  pub has_state : Bool
  pub flush_buf : Option State
  pub flush_pending : Bool
  pub rewrite_pending : Bool
  pub stopped : Bool
  pub file : Option Text
  pub state_file : Option Text

-- `load`: a file that is not there is no error for `New`; a line that is there is a domain.
unfoldable pub load : Store → Store
load s = elim s.file [
  | none ↦ s
  | some text ↦ record s { domains = load_lines (lines text) s.domains }
]

unfoldable pub new : Option Counters → Bool → Option Text → Option Text → Store
unfolding load
new metrics has_state file state_file = load (record {
  domains = [];
  persist_buf = [];
  persist_buf_gen = 0;
  write_gen = 0;
  metrics = metrics;
  has_state = has_state;
  flush_buf = none;
  flush_pending = false;
  rewrite_pending = false;
  stopped = false;
  file = file;
  state_file = state_file;
})

unfoldable pub is_iran : Store → Text → Bool
is_iran s domain = covers s.domains (normalize domain)

abbrev pub count_learned : Option Counters → Option Counters
count_learned none = none
count_learned (some m) = some (record m { learned_total = i64_inc m.learned_total })

abbrev pub count_removed : Option Counters → Option Counters
count_removed none = none
count_removed (some m) = some (record m { store_removed = i64_inc m.store_removed })

abbrev pub count_cleaned : ℕ → Option Counters → Option Counters
count_cleaned n none = none
count_cleaned n (some m) = some (record m { store_cleaned = i64_add m.store_cleaned n })

abbrev pub at_fifty : Option Counters → Bool
at_fifty none = false
at_fifty (some m) = m.learned_total % 50 == 0

-- The state that `saveLearnedToday` builds; truncated subtraction is its test for a negative count.
abbrev pub learned_state : Text → Counters → State
learned_state today m = record zero_state {
  learned_today_date = today;
  learned_today_count = m.learned_total - m.learned_total_at_midnight;
  learned_total_at_midnight = m.learned_total_at_midnight;
  learned_total_count = m.learned_total;
}

-- With `saveStateSoon` and `scheduleFlushLocked`.
unfoldable pub save_learned_today : Text → Store → Store
save_learned_today today s = elim s.metrics [
  | none ↦ s
  | some m ↦
      if s.has_state
      then record s { flush_buf = some (learned_state today m); flush_pending = true }
      else s
]

unfoldable pub persist : Text → Store → Store
persist domain s = record s {
  persist_buf = s.persist_buf ++ domain ∷ [];
  persist_buf_gen = s.write_gen;
}

unfoldable pub add : Text → Text → Store → Store
unfolding save_learned_today persist
add today domain s =
    let d = normalize domain in
    if has s.domains d
    then s
    else (let learned =
          persist d
            (record s { domains = insert d true s.domains; metrics = count_learned s.metrics }) in
        if at_fifty learned.metrics then save_learned_today today learned else learned)

-- `flushPersist` takes the buffer under one lock, and writes it under another: `writeAll` may run in
-- between.
pub record Drained : Type 0 where
  pub buffered : List Text
  pub gen : ℕ

unfoldable pub drain : Store → Store × Drained
drain s = (
  record s { persist_buf = []; persist_buf_gen = 0 },
  record { buffered = s.persist_buf; gen = s.persist_buf_gen },
)

unfoldable pub append_drained : Bool → Drained → Store → Store
append_drained opened b s =
    if not (s.write_gen == b.gen)
    then s
    else if opened
    then record s { file = some (or_else s.file [] ++ render b.buffered) }
    else s

abbrev pub no_names : List Text → Bool
no_names [] = true
no_names (d ∷ ds) = false

-- `opened`: whether the file could be opened.
unfoldable pub flush_persist : Bool → Store → Store
unfolding drain append_drained
flush_persist opened s =
    let (s', b) = drain s in if no_names s.persist_buf then s else append_drained opened b s'

-- `written` is false where creating, writing, closing or renaming the temporary file fails.
unfoldable pub write_all : Bool → Store → Store
write_all written s =
    let s' = record s { write_gen = i64_inc s.write_gen } in
    if written then record s' { file = some (render (sort (keys s.domains))) } else s'

unfoldable pub remove : Text → Store → Store
remove domain s =
    let d = normalize domain in
    if not (has s.domains d) then s else record s {
      domains = delete d s.domains;
      metrics = count_removed s.metrics;
      rewrite_pending = true;
    }

-- The timer of `scheduleRewrite` fires.
unfoldable pub fire_rewrite : Bool → Store → Store
unfolding write_all
fire_rewrite written s =
    let s' = write_all written (record s { rewrite_pending = false }) in
    if s.rewrite_pending then s' else s

-- The fields that `flushState` copies into the state file.
abbrev pub merge_learned : State → State → State
merge_learned st s2 = record s2 {
  learned_total_count = st.learned_total_count;
  learned_total_at_midnight = st.learned_total_at_midnight;
  learned_today_count = st.learned_today_count;
  learned_today_date = st.learned_today_date;
}

unfoldable pub flush_state : Json → SaveCalls → Store → Store
flush_state json calls s = elim s.flush_buf [
  | none ↦ s
  | some st ↦ record s {
    flush_buf = none;
    state_file = (update json calls (merge_learned st) s.state_file).0;
  }
]

unfoldable pub save_cleanup_time : Json → SaveCalls → ℕ → Store → Store
save_cleanup_time json calls now s =
    if s.has_state
    then record s {
      state_file = (update json calls (λ st. record st { last_cleanup_unix = now }) s.state_file).0;
    }
    else s

-- The wait of `cleanup` for a healthy upstream: the doubled backoff, at most a minute.
unfoldable pub next_backoff : ℕ → ℕ
next_backoff backoff = if ltb 60 (backoff * 2) then 60 else backoff * 2

-- What the workers found: each domain that was validated, and whether it is still valid.
abbrev pub to_remove : List (Text × Bool) → List Text
to_remove [] = []
to_remove ((d, valid) ∷ rest) = if valid then to_remove rest else d ∷ to_remove rest

-- The loop that deletes, with its count.
unfoldable pub delete_all : List Text → Dict Bool → ℕ → Dict Bool × ℕ
delete_all [] domains removed = (domains, removed)
delete_all (d ∷ ds) domains removed =
    let there = has domains d in
    delete_all ds (if there then delete d domains else domains)
      (if there then removed + 1 else removed)

-- `cleanup` after its workers are done, up to the end of `writeAll`.
abbrev pub sweep : Bool → List (Text × Bool) → Store → Store
sweep written verdicts s =
    let (left, removed) = delete_all (to_remove verdicts) s.domains 0 in
    write_all written (record s { domains = left; metrics = count_cleaned removed s.metrics })

-- What `cleanup` does next: it stops the timer of `scheduleRewrite`. Another call may come in between.
abbrev pub cancel_rewrite : Store → Store
cancel_rewrite s = record s { rewrite_pending = false }

-- `cleanup` after its workers, where other calls change the store before it stops that timer.
unfoldable pub cleanup_among :
    Json → SaveCalls → Bool → ℕ → List (Text × Bool) → (Store → Store) → Store → Store
unfolding delete_all write_all save_cleanup_time
cleanup_among json calls written now verdicts others s =
    save_cleanup_time json calls now (cancel_rewrite (others (sweep written verdicts s)))

unfoldable pub cleanup : Json → SaveCalls → Bool → ℕ → List (Text × Bool) → Store → Store
unfolding cleanup_among
cleanup json calls written now verdicts s = cleanup_among json calls written now verdicts (λ t. t) s

-- The loop at the head of `cleanup`, with the results of its health checks until `Stop` ends the wait: how
-- many seconds it waits each time, and whether it goes on to clean up.
unfoldable pub wait_healthy : ℕ → List Bool → List ℕ × Bool
unfolding next_backoff
wait_healthy backoff [] = ([], false)
wait_healthy backoff (healthy ∷ checks) =
    let (waits, ready) = wait_healthy (next_backoff backoff) checks in
    if healthy then ([], true) else (backoff ∷ waits, ready)

-- All of `cleanup`. The verdicts are `none` where `Stop` interrupts the workers.
unfoldable pub run_cleanup :
    Json → SaveCalls → Bool → ℕ → List Bool → Option (List (Text × Bool)) → Store → Store
unfolding wait_healthy cleanup
run_cleanup json calls written now checks none s = s
run_cleanup json calls written now checks (some verdicts) s =
    if (wait_healthy 1 checks).1 then cleanup json calls written now verdicts s else s

-- `Stop`, but for the last `flushPersist`, which the flusher makes when it sees the closed channel.
unfoldable pub stop : Json → SaveCalls → Text → Store → Store
unfolding save_learned_today flush_state
stop json calls today s =
    let s' = save_learned_today today (record s { stopped = true; rewrite_pending = false }) in
    flush_state json calls (record s' { flush_pending = false })
