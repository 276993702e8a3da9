-- ===== src/Updater.antt =====
-- internal/updater/updater.go: how the file of Iranian ranges is replaced by a newly downloaded one. The
-- HTTP client and `net.ParseCIDR` are parameters, and so is the outcome of each system call. The
-- classifier, the file and the state file stand in one record; the loop of `Start` is the list of its
-- updates.
pub mod Served
pub mod History
mod Tests
use sentrydns.Base.{
  ℕ, zero, suc, ◌+◌, ◌-◌, Bool, true, false, not, Option, none, some, List, [], ◌∷◌, ◌==◌, leb,
  if◌then◌else◌, take, Text,
}
use sentrydns.LearnedFile.{lines, is_skipped}
use sentrydns.StateFile.{State, Json, SaveCalls}
use sentrydns.StateFile
use sentrydns.Netip.{Netip}
use sentrydns.Classifier
use sentrydns.Classifier.{Classifier, LoadError, reload}

-- `last_update_time` and `last_update_success` are those of internal/metrics.
pub record Updater : Type 0 where
  pub classifier : Classifier
  pub file : Option Text
  pub has_state : Bool
  pub state_file : Option Text
  pub last_update_time : Option ℕ
  pub last_update_success : Bool

-- One download: the status and the body of the response, or an error, and which of the calls that follow
-- succeed. `seen` is how many lines the scanner of `containsValidCIDR` can read, and `scanned` whether
-- that of the classifier meets no error.
pub record Download : Type 0 where
  pub reply : Option (ℕ × Text)
  pub created : Bool
  pub copied : Bool
  pub opened : Bool
  pub seen : ℕ
  pub renamed : Bool
  pub reopened : Bool
  pub scanned : Bool
  pub now : ℕ
  pub calls : SaveCalls

-- Whether `net.ParseCIDR` accepts a text.
pub record Cidr : Type 0 where
  pub is_cidr : Text → Bool

abbrev pub min_valid_cidr : ℕ
min_valid_cidr = 10

abbrev pub max_read_bytes : ℕ
max_read_bytes = 104857600

-- The loop of `containsValidCIDR`, with the count so far.
unfoldable pub enough : Cidr → ℕ → List Text → Bool
enough net count [] = false
enough net count (line ∷ rest) =
    let valid = if is_skipped line then false else net.is_cidr line in
    let more = enough net (if valid then count + 1 else count) rest in
    if valid then (if leb min_valid_cidr (count + 1) then true else more) else more

unfoldable pub contains_valid_cidr : Cidr → Download → Text → Bool
unfolding enough
contains_valid_cidr net d text = if d.opened then enough net 0 (take d.seen (lines text)) else false

unfoldable pub set_update_success : Json → Download → Bool → Updater → Updater
set_update_success json d success u =
    let changed = λ (st : State).
      if success
      then record st { last_update_success = success; last_update_unix = d.now }
      else record st { last_update_success = success } in
    let u' = record u { last_update_success = success } in
    if u.has_state
    then record u' { state_file = (StateFile.update json d.calls changed u.state_file).0 }
    else u'

-- The end of `update`, after the classifier is reloaded.
unfoldable pub finish : Json → Download → Option LoadError → Updater → Updater
unfolding set_update_success
finish json d (some e) u = set_update_success json d false u
finish json d none u =
    let changed =
      λ (st : State). record st { last_update_unix = d.now; last_update_success = true } in
    let u' = record u { last_update_time = some d.now; last_update_success = true } in
    if u.has_state
    then record u' { state_file = (StateFile.update json d.calls changed u.state_file).0 }
    else u'

-- `update` once the downloaded text has passed the test.
unfoldable pub replace : Json → Netip → Download → Text → Updater → Updater
unfolding finish
replace json net d text u =
    let (c, err) = reload net d.scanned (if d.reopened then some text else none) u.classifier in
    if d.renamed
    then finish json d err (record u { file = some text; classifier = c })
    else set_update_success json d false u

-- `update` with the status and the body of a response; at most `maxReadBytes` of it are copied.
unfoldable pub receive : Json → Netip → Cidr → Download → ℕ → Text → Updater → Updater
unfolding replace contains_valid_cidr
receive json net cidr d status body u =
    let failed = set_update_success json d false u in
    let text = take max_read_bytes body in
    if not (status == 200)
    then failed
    else if not d.created
    then failed
    else if not d.copied
    then failed
    else if not (contains_valid_cidr cidr d text)
    then failed
    else replace json net d text u

unfoldable pub of_reply : Json → Netip → Cidr → Download → Option (ℕ × Text) → Updater → Updater
unfolding receive
of_reply json net cidr d none u = set_update_success json d false u
of_reply json net cidr d (some (status, body)) u = receive json net cidr d status body u

unfoldable pub update : Json → Netip → Cidr → Download → Updater → Updater
unfolding of_reply
update json net cidr d u = of_reply json net cidr d d.reply u

-- The updates that `Start` makes, one after the other.
unfoldable pub run : Json → Netip → Cidr → List Download → Updater → Updater
unfolding update
run json net cidr [] u = u
run json net cidr (d ∷ ds) u = run json net cidr ds (update json net cidr d u)

-- `scheduleFromMtime`: the time until the first update, or `none` where it is due now. The file was
-- changed at the time `mtime`, if it is there.
unfoldable pub schedule_from_mtime : Option ℕ → ℕ → ℕ → Updater → Updater × Option ℕ
schedule_from_mtime none interval now u = (record u { last_update_success = false }, none)
schedule_from_mtime (some mtime) interval now u = (
  record u { last_update_time = some mtime; last_update_success = true },
  if leb (mtime + interval) now then none else some (mtime + interval - now),
)
