-- ===== src/Bq/Tests.antt =====
-- The theorems of the BigQuery client at a table with one row, whose second value is null.
use go_drive_etl.Common.{
  ℕ, none, some, true, false, [], ◌∷◌, ok, err, codes, Text, ◌≡◌, List, Result, Option, refl, ◌>>=◌,
  if◌then◌else◌, text_eq, ◌+◌,
}
use go_drive_etl.Csv.{write_records, read_all}
use go_drive_etl.GoldVerify.{check_csv}
use go_drive_etl.Etl.Program.{Row, text}
use go_drive_etl.Bq.{
  done, next, RowIterator, BigQuery, Client, matches_table, record_of, export_query,
  export_table_csv, invalid_table,
}
use go_drive_etl.Bq.Export.{collect, lines, export_table_csv-content}
use go_drive_etl.Bq.Delivery.{undamaged, export_table_csv-check_csv}

abbrev daily : Text
daily = codes "mart_ingestion_daily"

abbrev columns : List Text
columns = codes "a" ∷ codes "b" ∷ codes "c" ∷ codes "d" ∷ codes "e" ∷ codes "f" ∷ []

abbrev one_row : Text → Option Text
one_row name = if text_eq name (codes "b") then none else some (codes "x, ")

abbrev iter : RowIterator Text
iter = record { schema = columns; rows = next one_row done }

-- The state counts the jobs.
abbrev bq : BigQuery Text ℕ
bq = record {
  project = codes "p";
  read = λ query w. (ok iter, w);
  run = λ dataset table content w. (ok (λ v. (ok none, v)), w + 1);
}

abbrev client : Client Text ℕ
client = record { bq = bq; dataset = codes "etl"; export_dataset = codes "etl_gold" }

export_table_csv-content_example : (export_table_csv client (λ s. s) daily 0).0 ≡ (
    if matches_table daily
    then (client.bq.read (export_query client daily) 0).0 >>= (λ it.
        collect it.rows >>= λ rows. ok (write_records (it.schema ∷ lines (λ s. s) it.schema rows)))
    else err invalid_table)
export_table_csv-content_example = export_table_csv-content (λ s. s) client daily 0

valid : matches_table daily ≡ true
unfolding matches_table
valid = refl

export_table_csv-check_csv_example :
    (csv : Text) × ((export_table_csv client (λ s. s) daily 0).0 ≡ ok csv)
    × (check_csv read_all daily csv csv false ≡ (undamaged daily 1, none))
unfolding record_of
export_table_csv-check_csv_example =
    export_table_csv-check_csv (λ s. s) client daily false 0 iter (one_row ∷ []) valid refl refl
      refl refl refl

abbrev marshal : Row → Result Text
marshal row = ok (codes "{}")

abbrev loaded : List Row
loaded = ((codes "id", text (codes "1")) ∷ []) ∷ [] ∷ []
