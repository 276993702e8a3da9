-- ===== src/Server/Schedule.antt =====
-- `parseCleanupSchedule` of cmd/sentrydns/main.go, and the first delay of the cleanup. A time of day is
-- the number of nanoseconds since midnight; a day has 24 hours, as in a zone without a change of clocks.
-- Every text of the form that the program prints, `%02d:%02d`, is a schedule.
use sentrydns.Base.{
  arith, refl, ap, ◌∙◌, ℕ, zero, suc, ◌+◌, ◌-◌, ◌*◌, ◌/◌, ◌%◌, ◌^◌, ◌≤◌, ◌<◌, ◌≡◌, false, ◌&&◌,
  ◌||◌, Option, none, some, List, [], ◌∷◌, ◌++◌, ◌==◌, ltb, leb, if◌then◌else◌, Text, ℤ, pos,
  negsuc, pos_part, ltb_ℤ, or_else,
}
use sentrydns.LearnedFile.{is_nil}
use sentrydns.Config.{Config}
use sentrydns.Server.{Net}

-- `strings.Split` at a byte, with the part that was begun.
unfoldable pub split_from : ℕ → Text → Text → List Text
split_from sep part [] = part ∷ []
split_from sep part (c ∷ s) =
    let closed = split_from sep [] s in
    let longer = split_from sep (part ++ c ∷ []) s in if c == sep then part ∷ closed else longer

unfoldable pub split : ℕ → Text → List Text
unfolding split_from
split sep s = split_from sep [] s

-- The digits of `strconv.Atoi`: their value after `n`, or `none` for a byte that is no digit.
unfoldable pub digits : ℕ → Text → Option ℕ
digits n [] = some n
digits n (c ∷ s) =
    let rest = digits (n * 10 + (c - b'0')) s in if leb b'0' c && leb c b'9' then rest else none

-- No digit at all is an error.
unfoldable pub magnitude : Text → Option ℕ
unfolding digits
magnitude [] = none
magnitude (c ∷ s) = digits 0 (c ∷ s)

-- A number that does not fit in an `int` of 64 bits is an error too.
abbrev pub positive_int : Option ℕ → Option ℤ
positive_int none = none
positive_int (some n) = if ltb n (2 ^ 63) then some (pos n) else none

abbrev pub negative_int : Option ℕ → Option ℤ
negative_int none = none
negative_int (some zero) = some (pos 0)
negative_int (some (suc n)) = if ltb n (2 ^ 63) then some (negsuc n) else none

unfoldable pub atoi : Text → Option ℤ
unfolding magnitude
atoi [] = none
atoi (c ∷ s) =
    if c == b'-'
    then negative_int (magnitude s)
    else if c == b'+'
    then positive_int (magnitude s)
    else positive_int (magnitude (c ∷ s))

-- A number from 0 to `most`.
abbrev pub at_most : ℕ → Option ℤ → Option ℕ
at_most most none = none
at_most most (some z) = if ltb_ℤ z (pos 0) || ltb_ℤ (pos most) z then none else some (pos_part z)

abbrev pub both : Option ℕ → Option ℕ → Option (ℕ × ℕ)
both none m = none
both (some h) none = none
both (some h) (some m) = some (h, m)

-- The parts of the text: exactly two.
unfoldable pub parse_parts : List Text → Option (ℕ × ℕ)
unfolding atoi
parse_parts [] = none
parse_parts (hour ∷ []) = none
parse_parts (hour ∷ min ∷ []) = both (at_most 23 (atoi hour)) (at_most 59 (atoi min))
parse_parts (hour ∷ min ∷ s ∷ rest) = none

-- The hour and the minute of a schedule; `none` where the source returns no function.
unfoldable pub parse_schedule : Text → Option (ℕ × ℕ)
unfolding split parse_parts
parse_schedule schedule = if is_nil schedule then none else parse_parts (split b':' schedule)

abbrev pub day : ℕ
day = 86400000000000

abbrev pub time_of : ℕ × ℕ → ℕ
time_of (hour, min) = (hour * 60 + min) * 60000000000

-- `nextCleanup`, at the time of day `now`
unfoldable pub next_cleanup : ℕ × ℕ → ℕ → ℕ
next_cleanup at now = if ltb now (time_of at) then time_of at - now else time_of at + day - now

-- The delay before the first cleanup of `main`, and the schedule of the later ones.
abbrev pub five_minutes : ℕ
five_minutes = 300000000000

unfoldable pub cleanup_delay : Net → Config → ℕ → ℕ × Option (ℕ × ℕ)
unfolding parse_schedule next_cleanup
cleanup_delay net cfg now = elim (parse_schedule cfg.cleanup_schedule) [
  | some at ↦ (next_cleanup at now, some at)
  | none ↦
      let initial = or_else (net.parse_duration cfg.cleanup_initial_delay) (pos 3600000000000) in
      (if ltb_ℤ initial (pos five_minutes) then five_minutes else pos_part initial, none)
]

-- `fmt.Sprintf("%02d", n)` of a number below 100
abbrev pub two_digits : ℕ → Text
two_digits n = (b'0' + n / 10) ∷ (b'0' + n % 10) ∷ []

abbrev pub print_schedule : ℕ × ℕ → Text
print_schedule (hour, min) = two_digits hour ++ b':' ∷ two_digits min

atoi-two_digits : (n : ℕ) → n < 100 → atoi (two_digits n) ≡ some (pos n)
unfolding atoi magnitude digits
atoi-two_digits n h = ground arith

no_colon : (n : ℕ) → n < 10 → (b'0' + n == b':') ≡ false
no_colon n h = ground arith

split-print_schedule :
    (hour min : ℕ)
    → hour < 24
    → min < 60
    → split b':' (print_schedule (hour, min)) ≡ two_digits hour ∷ two_digits min ∷ []
unfolding split split_from
split-print_schedule hour min h m =
    rw
      (
        no_colon (hour / 10) (omega arith),
        no_colon (hour % 10) (omega arith),
        no_colon (min / 10) (omega arith),
        no_colon (min % 10) (omega arith),
      )
      refl

-- An hour below 24 and a minute below 60, printed with two digits each as the program logs its
-- schedule, are read back as they are.
pub parse-print_schedule :
    (hour min : ℕ)
    → hour < 24
    → min < 60
    → parse_schedule (print_schedule (hour, min)) ≡ some (hour, min)
unfolding parse_schedule parse_parts
parse-print_schedule hour min h m =
    let x = atoi-two_digits hour (omega arith) in
    let y = atoi-two_digits min (omega arith) in
    ap parse_parts (split-print_schedule hour min h m) ∙ rw (x, y) (ground arith)

-- For a schedule of an hour below 24 and a minute below 60, whatever the time of day, the next
-- cleanup is due within 24 hours, not at once, and at the scheduled time.
pub next_cleanup-due :
    (hour min now : ℕ)
    → hour < 24
    → min < 60
    → now < day
    → let delay = next_cleanup (hour, min) now in
      (0 < delay) × (delay ≤ day) × ((now + delay) % day ≡ time_of (hour, min))
unfolding next_cleanup
next_cleanup-due hour min now h m n = (ground arith, ground arith, ground arith)
