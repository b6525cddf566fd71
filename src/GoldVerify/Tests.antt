-- ===== src/GoldVerify/Tests.antt =====
-- The theorems of the delivery checks at a folder with both files. The reader takes every text
-- for a header of six or seven empty cells and one row.
use go_drive_etl.Common.{
  ℕ, none, some, err, false, [], ◌∷◌, codes, Text, ◌≡◌, List, Result, ok, refl, ◌↔◌, is_empty,
  text_eq, if◌then◌else◌,
}
use go_drive_etl.GoldReport
use go_drive_etl.Services.{DriveClient, DriveFile, Source}
use go_drive_etl.GoldVerify.{
  check_csv, check_drive, check_listed, check_tables, check_table, with_export, with_download,
  judge, check_records, count_files,
}
use go_drive_etl.GoldVerify.Query.{
  comparison_sql, validate, fill, quoted_path, template, template_end, matches_project,
  matches_name,
}
use go_drive_etl.GoldVerify.Query.Quoting.{comparison_sql-quoted}
use go_drive_etl.GoldVerify.Delivery.{
  IsAccepted, Delivered, check_csv-IsAccepted, check_drive-Delivered,
}

abbrev read_csv : Text → Result (List (List Text))
read_csv s =
    let six : List Text = [] ∷ [] ∷ [] ∷ [] ∷ [] ∷ [] ∷ [] in
    ok ((if is_empty s then six else [] ∷ six) ∷ six ∷ [])

check_csv-IsAccepted_example :
    ((check_csv read_csv (codes "mart_ingestion_daily") [] [] false).1 ≡ none)
    ↔ IsAccepted (codes "mart_ingestion_daily") [] [] false (read_csv [])
check_csv-IsAccepted_example =
    check_csv-IsAccepted read_csv (codes "mart_ingestion_daily") [] [] false

abbrev file_of_table : Text → Text → DriveFile
file_of_table id name = record {
  id = id;
  name = name;
  mime_type = codes "text/csv";
  md5_checksum = [];
}

abbrev folder_files : List DriveFile
folder_files =
    file_of_table (codes "1") (codes "mart_ingestion_daily.csv")
    ∷ file_of_table (codes "2") (codes "mart_file_latest.csv")
    ∷ []

abbrev source : Source ℕ
source = record {
  export_table_csv =
      λ table w. (ok (if text_eq table (codes "mart_ingestion_daily") then [] else codes "x"), w);
}

abbrev dest : DriveClient ℕ
dest = record {
  list_files = λ folder w. (ok folder_files, w);
  download_file = λ id w. (ok (if text_eq id (codes "1") then [] else codes "x"), w);
  upsert_file = λ folder name mime_type content w. (none, w);
}

passed : ((check_drive read_csv source dest false none (codes "out") 0).0).error ≡ none
unfolding check_drive check_listed check_tables check_table with_export with_download judge
    check_csv check_records count_files
passed = refl

check_drive-Delivered_example :
    (files : List DriveFile) × ((dest.list_files (codes "out") 0).0 ≡ ok files)
    × Delivered read_csv source dest false none files GoldReport.tables
        ((check_drive read_csv source dest false none (codes "out") 0).0).results
check_drive-Delivered_example =
    check_drive-Delivered read_csv source dest false none (codes "out") 0 passed

comparison_sql-quoted_example :
    comparison_sql (codes "etl-project") (codes "etl_silver") (codes "etl_gold")
    ≡ (elim (validate (codes "etl-project") (codes "etl_silver") (codes "etl_gold"))
        as (λ _. Result Text) [
          | some e ↦ err e
          | none ↦ ok (
              fill
                (quoted_path (codes "etl-project") (codes "etl_silver") (codes "etl_gold"))
                template
                template_end)
        ])
comparison_sql-quoted_example =
    comparison_sql-quoted (codes "etl-project") (codes "etl_silver") (codes "etl_gold")

validated : validate (codes "etl-project") (codes "etl_silver") (codes "etl_gold") ≡ none
unfolding validate matches_project matches_name
validated = refl
