-- ===== src/Retro/Calendar.antt =====
-- The calendar functions of the package time that internal/parser/retro_metadata.go calls: the
-- proleptic Gregorian calendar, `AddDate(0, 0, n)`, `Weekday`, and the layouts "2006-01" and
-- "2006-01-02". Only years up to 9999 are printed.
pub mod Steps
use go_drive_etl.Common.{
  zero, suc, ℕ, Text, Bool, Option, if◌then◌else◌, ◌%◌, ◌++◌, ◌+◌, ◌-◌, ◌/◌, leb, ltb, ◌*◌, ◌==◌,
  ◌∷◌, [], ◌&&◌, ◌||◌, not, some, none,
}

pub record Date : Type 0 where
  pub year : ℕ
  pub month : ℕ
  pub day : ℕ

unfoldable pub is_leap : ℕ → Bool
is_leap y = y % 4 == 0 && (not (y % 100 == 0) || y % 400 == 0)

abbrev pub has_thirty : ℕ → Bool
has_thirty m = m == 4 || m == 6 || m == 9 || m == 11

-- 0 for a month that is none.
unfoldable pub days_in_month : ℕ → ℕ → ℕ
days_in_month y m =
    if m == 2
    then (if is_leap y then 29 else 28)
    else if has_thirty m
    then 30
    else if leb 1 m && leb m 12
    then 31
    else 0

unfoldable pub days_before_month : ℕ → ℕ → ℕ
days_before_month y zero = 0
days_before_month y (suc m) = days_before_month y m + days_in_month y m

abbrev pub date : ℕ → ℕ → ℕ → Date
date y m n = record { day = n; month = m; year = y }

-- 1 for the first of January of the year 1, a Monday.
unfoldable pub day_number : Date → ℕ
day_number d =
    let past = d.year - 1 in
    365 * past + past / 4 - past / 100 + past / 400 + days_before_month d.year d.month + d.day

-- `time.Weekday`: Sunday is 0.
unfoldable pub weekday : Date → ℕ
weekday d = day_number d % 7

unfoldable pub next_day : Date → Date
next_day d =
    if ltb d.day (days_in_month d.year d.month)
    then date d.year d.month (d.day + 1)
    else if ltb d.month 12
    then date d.year (d.month + 1) 1
    else date (d.year + 1) 1 1

-- `d.AddDate(0, 0, n)`.
unfoldable pub add_days : ℕ → Date → Date
add_days zero d = d
add_days (suc n) d = add_days n (next_day d)

abbrev digit : ℕ → ℕ
digit n = b'0' + n % 10

abbrev pub pad2 : ℕ → Text
pad2 n = digit (n / 10) ∷ digit n ∷ []

abbrev pub pad4 : ℕ → Text
pad4 n = digit (n / 1000) ∷ digit (n / 100) ∷ digit (n / 10) ∷ digit n ∷ []

-- `d.Format("2006-01")`.
unfoldable pub format_month : ℕ → ℕ → Text
format_month y m = pad4 y ++ b'-' ∷ pad2 m

-- `d.Format(time.DateOnly)`.
unfoldable pub format_date : Date → Text
format_date d = pad4 d.year ++ b'-' ∷ pad2 d.month ++ b'-' ∷ pad2 d.day

abbrev is_digit : ℕ → Bool
is_digit c = leb b'0' c && leb c b'9'

-- The parts of `time.Parse("2006-01", s)`: four digits, the dash and two digits.
unfoldable pub read_digits : ℕ → ℕ → ℕ → ℕ → Option ℕ
read_digits a b c d =
    if is_digit a && is_digit b && is_digit c && is_digit d
    then some ((a - b'0') * 1000 + (b - b'0') * 100 + (c - b'0') * 10 + (d - b'0'))
    else none

unfoldable pub read_month : ℕ → ℕ → Option ℕ
read_month e f =
    let m = (e - b'0') * 10 + (f - b'0') in
    if is_digit e && is_digit f && leb 1 m && leb m 12 then some m else none

unfoldable pub read_year_month : Option ℕ → ℕ → Option ℕ → Option (ℕ × ℕ)
read_year_month (some y) dash (some m) = if dash == b'-' then some (y, m) else none
read_year_month _ dash _ = none

-- `time.Parse("2006-01", s)`: the year and the month.
unfoldable pub parse_month : Text → Option (ℕ × ℕ)
parse_month (a ∷ b ∷ c ∷ d ∷ dash ∷ e ∷ f ∷ []) =
    read_year_month (read_digits a b c d) dash (read_month e f)
parse_month _ = none
