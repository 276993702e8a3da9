-- ===== src/StateFile.antt =====
-- internal/state/state.go: the small state file beside the learned domains. The text format is a
-- parameter (`encoding/json`), and so is the outcome of each system call. The counts are those that
-- the program writes, so they are natural numbers.
pub mod Atomic
pub mod Sample
mod Tests
use sentrydns.Base.{
  ℕ, ◌≡◌, Bool, true, false, not, Option, none, some, [], Text, if◌then◌else◌, or_else,
}

pub record State : Type 0 where
  pub last_update_unix : ℕ
  pub last_update_success : Bool
  pub last_cleanup_unix : ℕ
  pub learned_today_date : Text
  pub learned_today_count : ℕ
  pub learned_total_count : ℕ
  pub learned_total_at_midnight : ℕ

-- `&State{}`
abbrev pub zero_state : State
zero_state = record {
  last_update_unix = 0;
  last_update_success = false;
  last_cleanup_unix = 0;
  learned_today_date = [];
  learned_today_count = 0;
  learned_total_count = 0;
  learned_total_at_midnight = 0;
}

-- `json.Marshal` and `json.Unmarshal`; `none` is an error.
pub record Json : Type 0 where
  pub marshal : State → Option Text
  pub unmarshal : Text → Option State

-- What `Unmarshal` documents: it reads back what `Marshal` wrote.
abbrev pub ReadsBack : Json → Type 0
ReadsBack json = (s : State) (t : Text) → json.marshal s ≡ some t → json.unmarshal t ≡ some s

-- Whether each system call of `Save` succeeds.
pub record SaveCalls : Type 0 where
  pub created : Bool
  pub written : Bool
  pub synced : Bool
  pub closed : Bool
  pub renamed : Bool

-- `data, err := os.ReadFile(path)`: the file's text, or `none`.
unfoldable pub load : Json → Option Text → State
load json none = zero_state
load json (some text) = or_else (json.unmarshal text) zero_state

-- The file afterwards, and whether there was no error. The temporary file is removed on each path.
unfoldable pub save : Json → SaveCalls → Option Text → State → Option Text × Bool
save json calls file s = elim (json.marshal s) [
  | none ↦ (file, false)
  | some text ↦
      if not calls.created
      then (file, false)
      else if not calls.written
      then (file, false)
      else if not calls.synced
      then (file, false)
      else if not calls.closed
      then (file, false)
      else if calls.renamed
      then (some text, true)
      else (file, false)
]

-- Under `updateMu`: read, change, write.
unfoldable pub update : Json → SaveCalls → (State → State) → Option Text → Option Text × Bool
update json calls fn file = save json calls file (fn (load json file))
