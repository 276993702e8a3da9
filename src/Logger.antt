-- ===== src/Logger.antt =====
-- internal/logger/logger.go: the level, the outputs and what closing does to the log file. What slog makes
-- of a record is a parameter; a write to one output may fail.
mod Tests
use sentrydns.Base.{
  ℕ, ◌≡◌, refl, Bool, true, false, Option, none, some, List, [], ◌∷◌, ◌++◌, leb, text_eq,
  if◌then◌else◌, Text, codes,
}
use sentrydns.LearnedFile.{is_nil}

-- slog's levels, from the least severe on.
pub data Level : Type 0 where
  debug info warn error : Level

abbrev pub severity : Level → ℕ
severity debug = 0
severity info = 4
severity warn = 8
severity error = 12

unfoldable pub level_of : Text → Level
level_of level =
    if text_eq level (codes "debug")
    then debug
    else if text_eq level (codes "warn")
    then warn
    else if text_eq level (codes "error")
    then error
    else info

-- `lockedFile`: what is in the file, how much of it is on the disk, and whether it is closed. Each method
-- holds the lock, so it is one step.
pub record LockedFile : Type 0 where
  pub written : List Text
  pub synced : List Text
  pub is_closed : Bool

-- A closed file takes nothing.
unfoldable pub write : Bool → Text → LockedFile → LockedFile
write works p f =
    if f.is_closed then f else if works then record f { written = f.written ++ p ∷ [] } else f

unfoldable pub sync : Bool → LockedFile → LockedFile
sync works f = if f.is_closed then f else if works then record f { synced = f.written } else f

unfoldable pub close : LockedFile → LockedFile
close f = record f { is_closed = true }

-- The logger with its outputs: the standard output, and the log file where there is one.
pub record Logger : Type 0 where
  pub level : Level
  pub json_format : Bool
  pub stdout : List Text
  pub log_file : Option LockedFile
  pub stderr : List Text

abbrev pub no_file : Text → Bool → Logger
no_file level json_format = record {
  level = level_of level;
  json_format = json_format;
  stdout = [];
  log_file = none;
  stderr = [];
}

abbrev pub empty_file : LockedFile
empty_file = record { written = []; synced = []; is_closed = false }

-- `os.OpenFile`, with the text of its error if it fails.
abbrev pub open_file : Option Text → Logger → Logger
open_file none l = record l { log_file = some empty_file }
open_file (some e) l = record l {
  stderr = (codes "warning: failed to open log file: " ++ e ++ 10 ∷ []) ∷ [];
}

unfoldable pub new : Text → Bool → Text → Option Text → Logger
unfolding level_of
new level json_format path failure =
    let l = no_file level json_format in if is_nil path then l else open_file failure l

abbrev pub write_file : Bool → Text → Option LockedFile → Option LockedFile
write_file works p none = none
write_file works p (some f) = some (write works p f)

-- A record of some level, as the text that the handler makes of it. `io.MultiWriter` writes to the standard
-- output first, and stops at the first error.
unfoldable pub emit : Bool → Bool → Level → Text → Logger → Logger
unfolding write
emit out_works file_works level p l =
    let shown = record l {
      stdout = l.stdout ++ p ∷ [];
      log_file = write_file file_works p l.log_file;
    } in
    if leb (severity l.level) (severity level) then (if out_works then shown else l) else l

abbrev pub close_file : Bool → Option LockedFile → Option LockedFile
close_file works none = none
close_file works (some f) = some (close (sync works f))

-- The function that `New` returns beside the logger.
unfoldable pub closer : Bool → Logger → Logger
unfolding sync close
closer works l = record l { log_file = close_file works l.log_file }
