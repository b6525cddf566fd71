-- ===== src/GoldReport.antt =====
-- internal/goldreport/export.go: the delivery of the Gold tables as CSV files.
use go_drive_etl.Common.{
  none, some, [], ◌∷◌, ok, err, Text, codes, Error, List, Option, ◌++◌, if◌then◌else◌, message,
  wrapped, is_empty,
}
use go_drive_etl.Services.{DriveClient, Source}

abbrev pub tables : List Text
tables = codes "mart_ingestion_daily" ∷ codes "mart_file_latest" ∷ []

abbrev pub folder_required : Error
folder_required = message (codes "export folder required")

-- `table=%s: %w` and `file=%s: %w` of the two wrapped errors.
abbrev pub export_failed : Text → Error → Error
export_failed table e = wrapped (codes "Gold Mart の CSV 抽出に失敗: table=" ++ table ++ codes ": ") e

abbrev pub upsert_failed : Text → Error → Error
upsert_failed name e = wrapped (codes "Gold Mart CSV の Drive 出力に失敗: file=" ++ name ++ codes ": ") e

abbrev pub csv_name : Text → Text
csv_name table = table ++ codes ".csv"

module _ {W : Type 0} (drive : DriveClient W) (bq : Source W) (folder : Text) where
  -- The loop over the tables that are left.
  unfoldable pub export_loop : List Text → W → Option Error × W
  export_loop [] w = (none, w)
  export_loop (table ∷ rest) w =
      let (contents, w') = bq.export_table_csv table w in
      elim contents [
        | err e ↦ (some (export_failed table e), w')
        | ok csv ↦
            let (result, w'') =
              drive.upsert_file folder (csv_name table) (codes "text/csv") csv w' in
            elim result [
              | some e ↦ (some (upsert_failed (csv_name table) e), w'')
              | none ↦ export_loop rest w''
            ]
      ]

  unfoldable pub export_reports : W → Option Error × W
  unfolding export_loop
  export_reports w = if is_empty folder then (some folder_required, w) else export_loop tables w
