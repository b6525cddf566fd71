-- ===== src/Retro/Period.antt =====
-- `SprintPolicy.Period` of internal/parser/retro_metadata.go: the period runs from the N-th Monday
-- of the month to the Sunday behind it.
use native.Mathlib.Decide.{dec_le}
use go_drive_etl.Common.{
  ℕ, refl, some, false, inl, inr, ◌≡◌, arith, ◌≤◌, ◌<◌, ◌+◌, ◌*◌, ◌-◌, ◌≢◌, ◌%◌, ap, ◌∙◌, sym,
  Option-cases,
}
use go_drive_etl.Retro.Calendar.{Date, days_in_month, day_number, date, weekday, add_days}
use go_drive_etl.Retro.Calendar.Steps.{
  IsDate, add_days_within, add_days_over, next_first, day_number-add_days, days_in_month_bounds,
}
use go_drive_etl.Retro.{
  RetroLabel, RetroPeriod, SprintPolicy, first_monday_offset, valid_month, period, out_of_scope,
  format_date, checked_week, period_in_month,
}
use go_drive_etl.Retro.Bounds.{valid_month-bounds}

-- The N-th Monday of the month `m` of the year `y`.
pub record IsMonday (y m n : ℕ) (start : Date) : Type 0 where
  pub in_month : start ≡ date y m start.day
  pub nth_from : 7 * n < start.day + 7
  pub nth_to : start.day ≤ 7 * n
  pub exists_day : start.day ≤ days_in_month y m
  pub monday : weekday start ≡ 1

-- The day of the month that the code starts at, before it looks whether the month has it.
start_day : ℕ → ℕ → ℕ → ℕ
start_day n y m = 1 + (first_monday_offset (date y m 1) + 7 * (n - 1))

first_of_month : (y m : ℕ) → 1 ≤ y → 1 ≤ m → m ≤ 12 → IsDate (date y m 1)
first_of_month y m a b c = omega (arith, days_in_month_bounds y m b c)

-- The number of a day of a month, and of the first Monday.
day_number-day : (y m d : ℕ) → day_number (date y m d) ≡ day_number (date y m 0) + d
unfolding day_number
day_number-day y m d = omega arith

offset_lem :
    (y m : ℕ)
    → (first_monday_offset (date y m 1) ≤ 6)
      × ((day_number (date y m 0) + 1 + first_monday_offset (date y m 1)) % 7 ≡ 1)
unfolding first_monday_offset weekday
offset_lem y m = omega (arith, day_number-day y m 1)

-- Inside the month, that day is the N-th Monday.
start-IsMonday :
    (n y m : ℕ)
    → 1 ≤ n
    → start_day n y m ≤ days_in_month y m
    → IsMonday y m n (date y m (start_day n y m))
unfolding start_day weekday
start-IsMonday n y m hn fits = record {
  in_month = refl;
  nth_from = omega (arith, offset_lem y m);
  nth_to = omega (arith, offset_lem y m);
  exists_day = fits;
  monday = omega (arith, offset_lem y m, day_number-day y m (start_day n y m));
}

weekday-IsMonday :
    (y m n : ℕ) (start : Date)
    → IsMonday y m n start
    → (day_number (date y m 0) + start.day) % 7 ≡ 1
unfolding weekday
weekday-IsMonday y m n start v =
    omega (arith, ap day_number v.in_month, day_number-day y m start.day, v.monday)

-- And the N-th Monday of the month is that day.
IsMonday-start_day :
    (n y m : ℕ) (start : Date) → 1 ≤ n → IsMonday y m n start → start.day ≡ start_day n y m
unfolding start_day
IsMonday-start_day n y m start hn v = omega (arith, offset_lem y m, weekday-IsMonday y m n start v)

-- The test that rejects a Monday which the month does not have.
abbrev start_date_of : ℕ → ℕ → ℕ → Date
start_date_of n y m = add_days (first_monday_offset (date y m 1) + 7 * (n - 1)) (date y m 1)

start_within :
    (n y m : ℕ)
    → start_day n y m ≤ days_in_month y m
    → start_date_of n y m ≡ date y m (start_day n y m)
unfolding start_day
start_within n y m fits = add_days_within _ y m 1 fits

next_first-ne-month : (y m : ℕ) → 1 ≤ m → m ≤ 12 → (next_first y m).month ≢ m
unfolding next_first
next_first-ne-month y m h k = ground arith

start_over :
    (n y m : ℕ)
    → 1 ≤ n
    → n ≤ 5
    → 1 ≤ m
    → m ≤ 12
    → days_in_month y m < start_day n y m
    → (start_date_of n y m).month ≢ m
unfolding start_day
start_over n y m hn hn' hm hm' beyond =
    let bounds = days_in_month_bounds y m hm hm' in
    let (small, _) = offset_lem y m in
    rw
      (add_days_over (first_monday_offset (date y m 1) + 7 * (n - 1)) y m 1 hm (omega arith) beyond
        (omega arith))
      (next_first-ne-month y m hm hm')

abbrev week_from : Date → RetroPeriod
week_from start = record {
  start_date = format_date start;
  end_date = format_date (add_days 6 start);
}

checked_week-eq_some :
    (month start : Date) {r : RetroPeriod}
    → checked_week month start ≡ some r
    → (start.month ≡ month.month) × ((add_days 6 start).year ≤ 9999) × (r ≡ week_from start)
unfolding checked_week
checked_week-eq_some month start h = ground arith

checked_week_accepts :
    (month start : Date)
    → start.month ≡ month.month
    → (add_days 6 start).year ≤ 9999
    → checked_week month start ≡ some (week_from start)
unfolding checked_week
checked_week_accepts month start e fits = ground arith

sunday :
    (y m n : ℕ) (start : Date)
    → 1 ≤ n
    → 1 ≤ y
    → 1 ≤ m
    → m ≤ 12
    → IsMonday y m n start
    → weekday (add_days 6 start) ≡ 0
unfolding weekday
sunday y m n start hn hy hm hm' v =
    let valid : IsDate (date y m start.day) = omega (arith, v.nth_from, v.exists_day) in
    rw v.in_month (
      omega
        (arith, day_number-add_days 6 (date y m start.day) valid, ap weekday v.in_month, v.monday))

period_in_month-IsMonday :
    (n y m : ℕ) {r : RetroPeriod}
    → 1 ≤ n
    → n ≤ 5
    → 1 ≤ y
    → 1 ≤ m
    → m ≤ 12
    → period_in_month n (y, m) ≡ some r
    → (start : Date) × IsMonday y m n start
      × (weekday (add_days 6 start) ≡ 0)
      × ((add_days 6 start).year ≤ 9999)
      × (r ≡ week_from start)
unfolding period_in_month
period_in_month-IsMonday n y m hn hn' hy hm hm' h =
    let (same, fits, e) = checked_week-eq_some (date y m 1) (start_date_of n y m) h in
    elim (dec_le (start_day n y m) (days_in_month y m)) [
      | yes within ↦
          let v = start-IsMonday n y m hn within in
          let s = start_within n y m within in
          (date y m (start_day n y m), v, sunday y m n _ hn hy hm hm' v, rw s at fits, rw s at e)
      | no over ↦ absurd (start_over n y m hn hn' hm hm' (omega arith) same)
    ]

pub scope_bounds :
    (p : SprintPolicy) (label : RetroLabel)
    → out_of_scope p label ≡ false
    → (1 ≤ label.sequence) × (label.sequence ≤ 5)
unfolding out_of_scope
scope_bounds p label h = ground arith

period-eq_some :
    (p : SprintPolicy) (label : RetroLabel) {r : RetroPeriod}
    → period p (some label) ≡ some r
    → (out_of_scope p label ≡ false)
      × (ym : ℕ × ℕ) × (valid_month label.month ≡ some ym)
      × (period_in_month label.sequence ym ≡ some r)
unfolding period
period-eq_some p label h = elim (Option-cases (valid_month label.month)) [
  | inl e ↦ absurd (ground arith)
  | inr (ym, e) ↦ (ground arith, ym, e, ground arith)
]

-- A period that the policy assigns to a label is that of a sprint: it starts on the N-th Monday of
-- the label's month, N being the label's number, and ends on the Sunday six days later, in a year
-- up to 9999. The label is in the scope of the policy, and its month is a real one.
pub period-IsMonday :
    (p : SprintPolicy) (label : RetroLabel) {r : RetroPeriod}
    → period p (some label) ≡ some r
    → (y m : ℕ) × (start : Date) × (out_of_scope p label ≡ false)
      × (valid_month label.month ≡ some (y, m))
      × IsMonday y m label.sequence start
      × (weekday (add_days 6 start) ≡ 0)
      × ((add_days 6 start).year ≤ 9999)
      × (r ≡ record { start_date = format_date start; end_date = format_date (add_days 6 start) })
period-IsMonday p label h =
    let (scope, (y, m), valid, e) = period-eq_some p label h in
    let (hn, hn') = scope_bounds p label scope in
    let (hy, hm, hm', _) = valid_month-bounds label.month valid in
    let (start, v, sun, fits, same) =
      period_in_month-IsMonday label.sequence y m hn hn' hy hm hm' e in
    (y, m, start, scope, valid, v, sun, fits, same)

-- Nothing else is left out: where a label in scope names a real month, and the month has an N-th
-- Monday whose Sunday lies in a year up to 9999, the policy assigns that week.
pub period_complete :
    (p : SprintPolicy) (label : RetroLabel) (y m : ℕ) (start : Date)
    → out_of_scope p label ≡ false
    → valid_month label.month ≡ some (y, m)
    → IsMonday y m label.sequence start
    → (add_days 6 start).year ≤ 9999
    → period p (some label)
      ≡ some (record { start_date = format_date start; end_date = format_date (add_days 6 start) })
unfolding period
period_complete p label y m start scope valid v fits =
    let n = label.sequence in
    let (hn, _) = scope_bounds p label scope in
    let day = IsMonday-start_day n y m start hn v in
    let within : start_day n y m ≤ days_in_month y m = omega (arith, v.exists_day) in
    let e : start_date_of n y m ≡ start =
      start_within n y m within ∙ ap (date y m) (sym day) ∙ sym v.in_month in
    rw (scope, valid)
      (unfold period_in_month in
        rw e (checked_week_accepts (date y m 1) start (ap (λ (d : Date). d.month) v.in_month) fits))
