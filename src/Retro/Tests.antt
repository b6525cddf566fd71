-- ===== src/Retro/Tests.antt =====
-- Tests of the model of internal/parser/retro_metadata.go, and its theorems at inputs of
-- internal/parser/retro_metadata_test.go.
use go_drive_etl.Common.{
  ℕ, refl, none, some, true, false, [], ◌∷◌, ◌≡◌, arith, ◌≤◌, codes, trim_space, split, trim_left,
  trim_right, is_empty,
}
use go_drive_etl.Retro.Calendar.{
  Date, date, weekday, add_days, format_date, day_number, days_in_month, next_day, is_leap,
  days_before_month, parse_month, read_digits, read_month, read_year_month, format_month,
}
use go_drive_etl.Retro.Period.{IsMonday, period-IsMonday, period_complete}
use go_drive_etl.Retro.Label.{IsLabel, label_for, extract_retro_label-IsLabel}
use go_drive_etl.Retro.Heading.{more, document, extract_retro_label-document}
use go_drive_etl.Retro.{
  RetroLabel, RetroPeriod, SprintPolicy, extract_retro_label, out_of_scope, period, valid_month,
  checked_month, period_in_month, checked_week, parse_int32, first_monday_offset,
}

abbrev policy : SprintPolicy
policy = record { from_month = codes "2026-09" }

abbrev second_sprint : RetroLabel
second_sprint = record { month = codes "2026-11"; sequence = 2 }

abbrev second_week : RetroPeriod
second_week = record { start_date = codes "2026-11-09"; end_date = codes "2026-11-15" }

period_second : period policy (some second_sprint) ≡ some second_week
unfolding period weekday add_days format_date day_number days_in_month next_day is_leap
    days_before_month parse_month read_digits read_month read_year_month format_month out_of_scope
    valid_month checked_month period_in_month checked_week first_monday_offset
period_second = refl

period_disabled : period (record { from_month = [] }) (some second_sprint) ≡ none
unfolding period out_of_scope
period_disabled = refl

label_with_bom :
    extract_retro_label (0xfeff ∷ codes "\n  \n# 202611-2 \r\nbody") ≡ some second_sprint
unfolding extract_retro_label split trim_space trim_left trim_right parse_int32
label_with_bom = refl

label_indented : extract_retro_label (codes "    # 202611-2") ≡ none
unfolding extract_retro_label split trim_space trim_left trim_right parse_int32
label_indented = refl

period-IsMonday_example :
    (y m : ℕ) × (start : Date) × (out_of_scope policy second_sprint ≡ false)
    × (valid_month second_sprint.month ≡ some (y, m))
    × IsMonday y m second_sprint.sequence start
    × (weekday (add_days 6 start) ≡ 0)
    × ((add_days 6 start).year ≤ 9999)
    × (second_week
        ≡ record { start_date = format_date start; end_date = format_date (add_days 6 start) })
period-IsMonday_example = period-IsMonday policy second_sprint period_second

second_sprint_scope : out_of_scope policy second_sprint ≡ false
unfolding out_of_scope
second_sprint_scope = refl

second_sprint_valid : valid_month second_sprint.month ≡ some (2026, 11)
unfolding valid_month checked_month parse_month read_digits read_month read_year_month format_month
second_sprint_valid = refl

abbrev monday : Date
monday = date 2026 11 9

monday-IsMonday : IsMonday 2026 11 second_sprint.sequence monday
unfolding weekday day_number days_in_month days_before_month is_leap
monday-IsMonday = record {
  in_month = refl;
  nth_from = omega arith;
  nth_to = omega arith;
  exists_day = omega arith;
  monday = refl;
}

monday_week_year : (add_days 6 monday).year ≤ 9999
unfolding add_days next_day days_in_month is_leap
monday_week_year = omega arith

period_complete_example :
    period policy (some second_sprint)
    ≡ some (record { start_date = format_date monday; end_date = format_date (add_days 6 monday) })
period_complete_example =
    period_complete policy second_sprint 2026 11 monday second_sprint_scope second_sprint_valid
      monday-IsMonday monday_week_year

extract_retro_label-IsLabel_example : IsLabel second_sprint
extract_retro_label-IsLabel_example =
    extract_retro_label-IsLabel (0xfeff ∷ codes "\n  \n# 202611-2 \r\nbody") label_with_bom

blank_line : is_empty (trim_space (codes "  ")) ≡ true
unfolding trim_space trim_left trim_right
blank_line = refl

extract_retro_label-document_example :
    (extract_retro_label
        (document (codes "  " ∷ []) 2026 11 (codes "2") (codes " \r") (10 ∷ codes "body"))
      ≡ some (label_for 2026 11 (codes "2")))
    × (extract_retro_label (
          0xfeff ∷ document (codes "  " ∷ []) 2026 11 (codes "2") (codes " \r") (10 ∷ codes "body"))
        ≡ some (label_for 2026 11 (codes "2")))
extract_retro_label-document_example =
    extract_retro_label-document (codes "  " ∷ []) 2026 11 (codes "2") (codes " \r")
      (((refl, (refl, tt)), blank_line), tt) (omega arith) (omega arith) (omega arith) (omega arith)
      refl (omega arith) (refl, (refl, tt)) (more (codes "body"))
