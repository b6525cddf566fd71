-- ===== src/Retro/Dates.antt =====
-- The periods that `SprintPolicy.Period` of internal/parser/retro_metadata.go assigns, as days of
-- the calendar.

use mathlib.Core.Path.{subst}
use go_drive_etl.Retro.Calendar.Steps.{add_days-IsDate, IsDate}
use go_drive_etl.Common.{ℕ, some, ◌≡◌, arith, ◌≤◌, ap, sym}
use go_drive_etl.Retro.Calendar.{Date, date, add_days}
use go_drive_etl.Retro.{RetroLabel, RetroPeriod, SprintPolicy, period, format_date}
use go_drive_etl.Retro.Bounds.{valid_month-bounds}
use go_drive_etl.Retro.Period.{IsMonday, scope_bounds, period-IsMonday}

IsMonday-IsDate :
    (y m n : ℕ) (start : Date)
    → 1 ≤ n
    → 1 ≤ y
    → 1 ≤ m
    → m ≤ 12
    → IsMonday y m n start
    → IsDate start
IsMonday-IsDate y m n start hn hy hm hm' v =
    let first : IsDate (date y m start.day) =
      omega (arith, hn, v.nth_from, v.exists_day, hy, hm, hm') in
    subst IsDate (sym v.in_month) first

-- The two days of a period are days of the calendar, in the years from 1 to 9999.
pub period-IsDate :
    (p : SprintPolicy) (label : RetroLabel) {r : RetroPeriod}
    → period p (some label) ≡ some r
    → (start end : Date) × IsDate start
      × IsDate end
      × (start.year ≤ 9999)
      × (end.year ≤ 9999)
      × (r.start_date ≡ format_date start)
      × (r.end_date ≡ format_date end)
period-IsDate p label h =
    let (y, m, start, scope, valid, v, _, fits, same) = period-IsMonday p label h in
    let (hn, _) = scope_bounds p label scope in
    let (hy, hm, hm', small) = valid_month-bounds label.month valid in
    let real = IsMonday-IsDate y m label.sequence start hn hy hm hm' v in
    (
      start,
      add_days 6 start,
      real,
      add_days-IsDate 6 start real,
      omega (arith, small, ap (λ (d : Date). d.year) v.in_month),
      fits,
      ap (λ x. x.start_date) same,
      ap (λ x. x.end_date) same,
    )
