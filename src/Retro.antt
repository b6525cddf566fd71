-- ===== src/Retro.antt =====
-- internal/parser/retro_metadata.go: the label of a retrospective document, read from its first
-- heading, and the sprint that a policy assigns to it. Dates are those of Retro/Calendar; the
-- sequence number of a label, an int32, is a natural number, since `ExtractRetroLabel` makes no
-- label with a negative one.
pub mod Calendar
pub mod Bounds
pub mod Period
pub mod Dates
pub mod Label
pub mod Heading
mod Tests
use go_drive_etl.Common.{
  ℕ, Text, codes, List, Bool, Error, Option, Result, ◌+◌, ◌∷◌, false, if◌then◌else◌, is_empty, leb,
  message, none, some, split, true, ◌*◌, ◌-◌, ◌==◌, ltb, not, ok, text_eq, trim_space, ◌%◌, ◌&&◌,
  ◌||◌, [], trim_right, ◌++◌, err,
}
use go_drive_etl.Retro.Calendar.{
  Date, date, weekday, add_days, format_month, format_date, parse_month,
}

pub record RetroLabel : Type 0 where
  pub month : Text
  pub sequence : ℕ

pub record RetroPeriod : Type 0 where
  pub start_date : Text
  pub end_date : Text

pub record SprintPolicy : Type 0 where
  pub from_month : Text

-- `a < b` on strings.
abbrev pub text_lt : Text → Text → Bool
text_lt s [] = false
text_lt [] (y ∷ t) = true
text_lt (x ∷ s) (y ∷ t) = ltb x y || (x == y && text_lt s t)

pub checked_month : Text → Option (ℕ × ℕ) → Option (ℕ × ℕ)
checked_month s none = none
checked_month s (some (y, m)) =
    if ltb y 1 || not (text_eq (format_month y m) s) then none else some (y, m)

-- `err != nil || month.Year() < 1 || month.Format("2006-01") != s`, for `month, err :=
-- time.Parse("2006-01", s)`: the year and the month if the test fails.
pub valid_month : Text → Option (ℕ × ℕ)
unfolding checked_month
valid_month s = checked_month s (parse_month s)

abbrev pub policy_error : Error
policy_error = message (codes "sprint start month must be YYYY-MM with year 0001 through 9999")

pub new_sprint_policy : Text → Result SprintPolicy
new_sprint_policy from_month =
    if is_empty from_month then ok (record { from_month = [] }) else elim (valid_month from_month) [
      | none ↦ err policy_error
      | some ym ↦ ok (record { from_month = from_month })
    ]

-- `(int(time.Monday) - int(month.Weekday()) + 7) % 7`.
pub first_monday_offset : Date → ℕ
first_monday_offset month = (1 + 7 - weekday month) % 7

-- From `end := start.AddDate(0, 0, 6)` on.
pub checked_week : Date → Date → Option RetroPeriod
checked_week month start =
    let end = add_days 6 start in
    if not (start.month == month.month) || ltb 9999 end.year
    then none
    else some (record { start_date = format_date start; end_date = format_date end })

pub period_in_month : ℕ → ℕ × ℕ → Option RetroPeriod
period_in_month sequence (y, m) =
    let month = date y m 1 in
    checked_week month (add_days (first_monday_offset month + 7 * (sequence - 1)) month)

-- The tests of the guard of `Period`.
pub out_of_scope : SprintPolicy → RetroLabel → Bool
out_of_scope p label =
    is_empty p.from_month
    || text_lt label.month p.from_month
    || ltb label.sequence 1
    || ltb 5 label.sequence

unfoldable pub period : SprintPolicy → Option RetroLabel → Option RetroPeriod
period p none = none
period p (some label) = if out_of_scope p label then none else elim (valid_month label.month) [
  | none ↦ none
  | some ym ↦ period_in_month label.sequence ym
]

abbrev pub is_digit : ℕ → Bool
is_digit c = leb b'0' c && leb c b'9'

abbrev all_digits : Text → Bool
all_digits [] = true
all_digits (c ∷ s) = is_digit c && all_digits s

-- `0[1-9]|1[0-2]`.
abbrev pub is_month : ℕ → ℕ → Bool
is_month a b = (a == b'0' && leb b'1' b && leb b b'9') || (a == b'1' && leb b'0' b && leb b b'2')

-- `[1-9][0-9]*`.
abbrev pub is_number : Text → Bool
is_number [] = false
is_number (c ∷ s) = leb b'1' c && leb c b'9' && all_digits s

-- The groups of `^# ([0-9]{4})(0[1-9]|1[0-2])-([1-9][0-9]*)$`: the year, the month, the number.
pub retro_heading : Text → Option (Text × Text × Text)
retro_heading (h ∷ b ∷ y1 ∷ y2 ∷ y3 ∷ y4 ∷ m1 ∷ m2 ∷ d ∷ number) =
    if h == b'#'
      && b == b' '
      && is_digit y1
      && is_digit y2
      && is_digit y3
      && is_digit y4
      && is_month m1 m2
      && d == b'-'
      && is_number number
    then some (y1 ∷ y2 ∷ y3 ∷ y4 ∷ [], m1 ∷ m2 ∷ [], number)
    else none
retro_heading _ = none

-- The number that decimal digits spell behind `n`.
abbrev pub decimal : ℕ → Text → ℕ
decimal n [] = n
decimal n (c ∷ s) = decimal (n * 10 + (c - b'0')) s

abbrev pub max_int32 : ℕ
max_int32 = 2147483647

-- `strconv.ParseInt(s, 10, 32)` on digits.
pub parse_int32 : Text → Option ℕ
parse_int32 s = if leb (decimal 0 s) max_int32 then some (decimal 0 s) else none

pub label_of_match : Option (Text × Text × Text) → Option RetroLabel
unfolding parse_int32
label_of_match none = none
label_of_match (some (year, month, number)) =
    if text_eq year (codes "0000") then none else elim (parse_int32 number) [
      | none ↦ none
      | some n ↦ some (record { month = year ++ b'-' ∷ month; sequence = n })
    ]

-- The cutset of `strings.TrimRight(line, " \t\r")`.
abbrev pub is_line_blank : ℕ → Bool
is_line_blank c = c == b' ' || c == 9 || c == 13

pub label_of_lines : List Text → Option RetroLabel
unfolding retro_heading label_of_match
label_of_lines [] = none
label_of_lines (line ∷ lines) =
    let rest = label_of_lines lines in
    if is_empty (trim_space line)
    then rest
    else label_of_match (retro_heading (trim_right is_line_blank line))

-- `strings.TrimPrefix(s, "\ufeff")`.
pub trim_bom : Text → Text
trim_bom [] = []
trim_bom (c ∷ s) = if c == 0xfeff then s else c ∷ s

unfoldable pub extract_retro_label : Text → Option RetroLabel
unfolding trim_bom label_of_lines
extract_retro_label content = label_of_lines (split 10 (trim_bom content))
