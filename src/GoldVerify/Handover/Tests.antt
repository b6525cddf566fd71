-- ===== src/GoldVerify/Handover/Tests.antt =====
-- Two rounds on a folder in which a file of another name stands.
use go_drive_etl.Common.{none, some, false, [], ◌∷◌, codes, List, ◌≡◌, refl, arith, length}
use go_drive_etl.GoldReport.{export_reports}
use go_drive_etl.GoldVerify.{Checked, check_drive}
use go_drive_etl.GoldVerify.Handover.Uploads.{IsTidy}
use go_drive_etl.GoldVerify.Handover.Rounds.{two_rounds_pass}
use go_drive_etl.GoldVerify.Handover.{count_stored, client}
use go_drive_etl.GoldVerify.Handover.Positions.{Entry, stored_from, api, no_sum, api-ApiLaws}
use go_drive_etl.GoldVerify.Handover.Tables.{
  csv, source, read_csv, source-SourceLaws, daily_accepted, latest_accepted,
}

-- A file of another name and one of the two stand in the folder.
abbrev before : List Entry
before =
    record { name = codes "note"; content = codes "y" }
    ∷ record { name = codes "mart_file_latest.csv"; content = codes "old" }
    ∷ []

before-IsTidy : IsTidy (stored_from 0 before)
unfolding count_stored
before-IsTidy = (omega arith, omega arith)

two_rounds_pass_example :
    (w' : List Entry) × (c : Checked) × (w'' : List Entry) × (c' : Checked) × (export_reports
        (client api 1)
        source
        (codes "out")
        before
      ≡ (none, w'))
    × (check_drive read_csv source (client api 1) false none (codes "out") w' ≡ (c, w'))
    × (c.error ≡ none)
    × (export_reports (client api 1) source (codes "out") w' ≡ (none, w''))
    × (check_drive read_csv source (client api 1) false (some c.ids) (codes "out") w'' ≡ (c', w''))
    × (c'.error ≡ none)
    × (c'.ids ≡ c.ids)
two_rounds_pass_example =
    two_rounds_pass source api 1 no_sum (codes "out") (λ w. stored_from 0 w) (λ w. length w ∷ [])
      csv api-ApiLaws source-SourceLaws refl read_csv false daily_accepted latest_accepted before
      before-IsTidy
