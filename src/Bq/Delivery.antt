-- ===== src/Bq/Delivery.antt =====
-- An export of internal/bq/client.go before the check of internal/goldverify/verify.go, which reads
-- it with encoding/csv.
use go_drive_etl.Common.{
  ℕ, none, some, true, false, [], ◌∷◌, ok, Text, codes, Bool, Error, List, Option, refl, ap, ◌∙◌,
  ◌≡◌, if◌then◌else◌, not, map, message, text_eq, text_eq_refl, ==_iff, ◌==◌, ◌&&◌, length, arith,
  ◌≤◌, suc,
}
use go_drive_etl.Csv.{write_records, read_all}
use go_drive_etl.Csv.Fields.{no_field_returns}
use go_drive_etl.Csv.RoundTrip.{are_rows, is_blank, read_all-write_records}
use go_drive_etl.GoldVerify.{check_csv, check_records, expected_columns, CsvResult}
use go_drive_etl.Bq.{Client, RowIterator, record_of, export_query, matches_table, export_table_csv}
use go_drive_etl.Bq.Export.{collect, table_of, export_table_csv-table_of}

-- What a check reports of a table that was delivered as it was exported.
abbrev pub undamaged : Text → ℕ → CsvResult
undamaged table rows = record {
  table = table;
  rows = rows;
  columns = expected_columns table;
  duplicates = 0;
  matched = true;
  stable_id = false;
}

abbrev pub empty_csv : Error
empty_csv = message (codes "unexpected empty CSV")

length-map : {A B : Type 0} (f : A → B) (l : List A) → length (map f l) ≡ length l
length-map f [] = refl
length-map f (x ∷ l) = ap suc (length-map f l)

wide-is_blank : (fields : List Text) → 2 ≤ length fields → is_blank fields ≡ false
wide-is_blank [] h = ground arith
wide-is_blank (f ∷ []) h = ground arith
wide-is_blank ([] ∷ g ∷ fields) h = refl
wide-is_blank ((c ∷ f) ∷ g ∷ fields) h = refl

expected_columns-wide :
    (table : Text) (schema : List Text) → length schema ≡ expected_columns table → 2 ≤ length schema
expected_columns-wide table schema h = ground arith

check_records-undamaged :
    (table : Text) (allow_empty : Bool) (header : List Text) (records : List (List Text))
    → length header ≡ expected_columns table
    → check_records table true allow_empty (ok (header ∷ records)) ≡ (
      undamaged table (length records),
      if length records == 0 && not allow_empty then some empty_csv else none,
    )
unfolding check_records
check_records-undamaged table allow_empty header records h =
    rw (h, (==_iff (expected_columns table) (expected_columns table)).1 refl)

module _ {A : Type 0} (sprint : A → Text) where
  -- No text of the row has a carriage return.
  abbrev pub no_cell_returns : List Text → List (Text → Option A) → Bool
  no_cell_returns schema [] = true
  no_cell_returns schema (row ∷ rows) =
      no_field_returns (record_of sprint schema row) && no_cell_returns schema rows

  length-record_of :
      (schema : List Text) (row : Text → Option A)
      → length (record_of sprint schema row) ≡ length schema
  unfolding record_of
  length-record_of schema row = length-map _ schema

  rows-are_rows :
      (schema : List Text) (rows : List (Text → Option A))
      → 2 ≤ length schema
      → no_cell_returns schema rows ≡ true
      → are_rows (length schema) (map (record_of sprint schema) rows) ≡ true
  rows-are_rows schema [] wide h = refl
  rows-are_rows schema (row ∷ rows) wide h =
      let cells = record_of sprint schema row in
      let same : length cells ≡ length schema = length-record_of schema row in
      let rest = rows-are_rows schema rows wide (ground arith) in
      let full : is_blank cells ≡ false = wide-is_blank cells (ground arith) in ground arith

  -- A table with a valid name and of the expected width, whose query succeeds and whose rows are
  -- all read, without a carriage return in a column's name or a value, is exported; and the check
  -- of its CSV against itself reports no error and as many rows as there are, unless there are
  -- none and an empty table is not allowed.
  pub export_table_csv-check_csv :
      {W : Type 0} (c : Client A W) (table : Text) (allow_empty : Bool) (w : W) (it : RowIterator A)
      (rows : List (Text → Option A))
      → matches_table table ≡ true
      → (c.bq.read (export_query c table) w).0 ≡ ok it
      → collect it.rows ≡ ok rows
      → length it.schema ≡ expected_columns table
      → no_field_returns it.schema ≡ true
      → no_cell_returns it.schema rows ≡ true
      → (csv : Text) × ((export_table_csv c sprint table w).0 ≡ ok csv)
        × (check_csv read_all table csv csv allow_empty ≡ (
          undamaged table (length rows),
          if length rows == 0 && not allow_empty then some empty_csv else none,
        ))
  unfolding check_csv
  export_table_csv-check_csv c table allow_empty w it rows m read all width hs hr =
      let csv = write_records (table_of sprint it.schema rows) in
      let wide = expected_columns-wide table it.schema width in
      let full : is_blank it.schema ≡ false = wide-is_blank it.schema wide in
      let cells = rows-are_rows it.schema rows wide hr in
      (
        csv,
        export_table_csv-table_of sprint c table w ∙ rw (m, read, all),
        ap (check_records table (text_eq csv csv) allow_empty) (
              read_all-write_records it.schema (map (record_of sprint it.schema) rows)
                (ground arith))
            ∙ rw (text_eq_refl csv) (
                check_records-undamaged table allow_empty it.schema _ width
                ∙ rw (length-map (record_of sprint it.schema) rows)),
      )
