-- ===== src/Retro/Calendar/Steps.antt =====
-- One day and several days forward: dates stay dates, the day number counts the days, and a span of
-- days inside a month or into the next one is computed in closed form.
use native.Mathlib.Decide.{dec_lt}
use native.Mathlib.Nat.{zero-add, suc-add, add-zero}
use mathlib.Core.Path.{subst}
use native.Mathlib.Numerals.{add-one}
use go_drive_etl.Common.{
  ℕ, zero, suc, refl, false, ◌≤◌, arith, ◌≡◌, ◌*◌, ◌+◌, ◌/◌, ◌-◌, ap, if◌then◌else◌, ◌<◌, lt→ltb,
  sym, ltb, ◌∙◌,
}
use go_drive_etl.Retro.Calendar.{
  Date, add_days, day_number, days_before_month, days_in_month, is_leap, next_day, date,
}

pub record IsDate (d : Date) : Type 0 where
  pub year_pos : 1 ≤ d.year
  pub month_pos : 1 ≤ d.month
  pub month_le : d.month ≤ 12
  pub day_pos : 1 ≤ d.day
  pub day_le : d.day ≤ days_in_month d.year d.month

pub days_in_month_bounds :
    (y m : ℕ) → 1 ≤ m → m ≤ 12 → (28 ≤ days_in_month y m) × (days_in_month y m ≤ 31)
unfolding days_in_month
days_in_month_bounds y m h k = ground arith

-- The three ways in which a day ends.
module _ (y m d : ℕ) where
  next_day_within : d < days_in_month y m → next_day (date y m d) ≡ date y m (d + 1)
  unfolding next_day
  next_day_within h = rw (lt→ltb d (days_in_month y m) h)

  next_day_month : days_in_month y m ≤ d → m < 12 → next_day (date y m d) ≡ date y (m + 1) 1
  unfolding next_day
  next_day_month h k = ground arith

  next_day_year : days_in_month y m ≤ d → 12 ≤ m → next_day (date y m d) ≡ date (y + 1) 1 1
  unfolding next_day
  next_day_year h k = ground arith

-- A statement about the next day is proved on each of them.
next_day-cases :
    (P : Date → Type 0) (y m d : ℕ)
    → (d < days_in_month y m → P (date y m (d + 1)))
    → (days_in_month y m ≤ d → m < 12 → P (date y (m + 1) 1))
    → (days_in_month y m ≤ d → 12 ≤ m → P (date (y + 1) 1 1))
    → P (next_day (date y m d))
next_day-cases P y m d a b c = elim (dec_lt d (days_in_month y m)) [
  | yes h ↦ subst P (sym (next_day_within y m d h)) (a h)
  | no h ↦ elim (dec_lt m 12) [
    | yes k ↦ subst P (sym (next_day_month y m d (omega arith) k)) (b (omega arith) k)
    | no k ↦
        subst P (sym (next_day_year y m d (omega arith) (omega arith)))
          (c (omega arith) (omega arith))
  ]
]

pub next_day-IsDate : (d : Date) → IsDate d → IsDate (next_day d)
next_day-IsDate d v =
    next_day-cases IsDate d.year d.month d.day (λ h. omega arith)
      (λ h k. omega (arith, days_in_month_bounds d.year (d.month + 1)))
      (λ h k. omega (arith, days_in_month_bounds (d.year + 1) 1))

days_before_month_year : (y : ℕ) → days_before_month y 12 + 31 ≡ (if is_leap y then 366 else 365)
unfolding days_before_month days_in_month
days_before_month_year y = ground arith

-- The days of the years before the year `y`.
abbrev days_before_year : ℕ → ℕ
days_before_year y = 365 * (y - 1) + (y - 1) / 4 - (y - 1) / 100 + (y - 1) / 400

leap_step :
    (y : ℕ)
    → 1 ≤ y
    → days_before_year (y + 1) ≡ days_before_year y + (if is_leap y then 366 else 365)
unfolding is_leap
leap_step y h = ground arith

days_before_month_suc :
    (y m : ℕ) → days_before_month y (m + 1) ≡ days_before_month y m + days_in_month y m
unfolding days_before_month
days_before_month_suc y m = rw add-one

january : (y : ℕ) → days_before_month y 1 ≡ 0
unfolding days_before_month days_in_month
january y = refl

december : (y m : ℕ) → m ≡ 12 → days_in_month y m ≡ 31
unfolding days_in_month
december y m h = rw h

-- The day after a date has the next number.
pub day_number-next_day : (d : Date) → IsDate d → day_number (next_day d) ≡ day_number d + 1
day_number-next_day d v =
    next_day-cases (λ e. day_number e ≡ day_number d + 1) d.year d.month d.day
      (λ h. unfold day_number in omega arith)
      (λ h k. unfold day_number in omega (arith, days_before_month_suc d.year d.month))
      (λ h k.
        let e : d.month ≡ 12 = omega arith in
        unfold day_number in
        omega (
          arith,
          leap_step d.year v.year_pos,
          days_before_month_year d.year,
          ap (days_before_month d.year) e,
          december d.year d.month e,
          january (d.year + 1),
        ))

pub add_days-add : (m n : ℕ) (d : Date) → add_days (m + n) d ≡ add_days n (add_days m d)
unfolding add_days
add_days-add zero n d = rw zero-add
add_days-add (suc m) n d = rw suc-add (add_days-add m n (next_day d))

pub add_days-IsDate : (n : ℕ) (d : Date) → IsDate d → IsDate (add_days n d)
unfolding add_days
add_days-IsDate zero d v = v
add_days-IsDate (suc n) d v = add_days-IsDate n (next_day d) (next_day-IsDate d v)

pub day_number-add_days :
    (n : ℕ) (d : Date) → IsDate d → day_number (add_days n d) ≡ day_number d + n
unfolding add_days
day_number-add_days zero d v = omega arith
day_number-add_days (suc n) d v =
    omega (arith, day_number-add_days n (next_day d) (next_day-IsDate d v), day_number-next_day d v)

pub add_days_within :
    (n y m d : ℕ) → d + n ≤ days_in_month y m → add_days n (date y m d) ≡ date y m (d + n)
unfolding add_days
add_days_within zero y m d h = rw add-zero
add_days_within (suc n) y m d h =
    rw (next_day_within y m d (omega arith), add_days_within n y m (d + 1) (omega arith))
      (ap (date y m) (omega arith))

-- The first of the next month.
unfoldable pub next_first : ℕ → ℕ → Date
next_first y m = if ltb m 12 then date y (m + 1) 1 else date (y + 1) 1 1

next_day-next_first : (y m d : ℕ) → days_in_month y m ≤ d → next_day (date y m d) ≡ next_first y m
unfolding next_first next_day
next_day-next_first y m d h = ground arith

next_first-day : (y m : ℕ) → (next_first y m).day ≡ 1
unfolding next_first
next_first-day y m = ground arith

next_first-room :
    (y m : ℕ) → 1 ≤ m → 28 ≤ days_in_month (next_first y m).year (next_first y m).month
unfolding next_first
next_first-room y m h = elim (dec_lt m 12) [
  | yes k ↦ rw (lt→ltb m 12 k) (days_in_month_bounds y (m + 1) (omega arith) (omega arith)).0
  | no k ↦
      let e : ltb m 12 ≡ false = ground arith in
      rw e (days_in_month_bounds (y + 1) 1 (omega arith) (omega arith)).0
]

-- Over the end of the month, into the next one.
pub add_days_over :
    (n y m d : ℕ)
    → 1 ≤ m
    → d ≤ days_in_month y m
    → days_in_month y m < d + n
    → d + n ≤ days_in_month y m + 28
    → add_days n (date y m d)
      ≡ date (next_first y m).year (next_first y m).month (d + n - days_in_month y m)
add_days_over n y m d one day_le beyond near =
    let rest = days_in_month y m - d in
    let after = d + n - days_in_month y m - 1 in
    let first = next_first y m in
    let e : n ≡ rest + suc after = omega arith in
    let f : d + rest ≡ days_in_month y m = omega arith in
    let g : first.day + after ≡ d + n - days_in_month y m = omega (arith, next_first-day y m) in
    ap (λ k. add_days k (date y m d)) e
    ∙ add_days-add rest (suc after) (date y m d)
    ∙ ap (add_days (suc after)) (add_days_within rest y m d (omega arith))
    ∙ over_one after y m (d + rest) (omega arith)
    ∙ add_days_within after first.year first.month first.day
        (omega (arith, next_first-day y m, next_first-room y m one))
    ∙ ap (date first.year first.month) g
  where
    over_one :
        (k y m d : ℕ)
        → days_in_month y m ≤ d
        → add_days (suc k) (date y m d) ≡ add_days k (next_first y m)
    over_one k y m d h = unfold add_days in ap (add_days k) (next_day-next_first y m d h)
