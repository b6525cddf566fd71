-- ===== src/GoldVerify.antt =====
-- internal/goldverify: the checks of a delivery. `read_csv`, the reader of encoding/csv, is an
-- argument. Counts are those of COUNT, and a map gives 0 or "" for a key that it lacks.
pub mod Delivery
pub mod Query
pub mod Handover
mod Tests
use go_drive_etl.Common.{
  ℕ, zero, suc, none, some, true, false, [], ◌∷◌, ok, err, Text, codes, Bool, Error, List, Option,
  Result, if◌then◌else◌, message, not, text_eq, wrapped, ◌&&◌, ◌==◌, length, ◌++◌, ◌||◌, ltb, ◌+◌,
  ◌-◌,
}
use go_drive_etl.GoldReport
use go_drive_etl.Services.{DriveClient, DriveFile, Source}

-- `GoldMatches`.
unfoldable pub gold_matches : (Text → ℕ) → Bool → Bool
gold_matches c allow_empty =
    if c (codes "daily_missing") == 0
      && c (codes "daily_extra") == 0
      && c (codes "latest_missing") == 0
      && c (codes "latest_extra") == 0
    then c (codes "expected_daily") == c (codes "actual_daily")
      && c (codes "expected_latest") == c (codes "actual_latest")
      && (allow_empty || ltb 0 (c (codes "silver_chunks")))
    else false

pub record CsvResult : Type 0 where
  pub table : Text
  pub rows : ℕ
  pub columns : ℕ
  pub duplicates : ℕ
  pub matched : Bool
  pub stable_id : Bool

abbrev pub no_result : Text → Bool → CsvResult
no_result table matched = record {
  table = table;
  rows = 0;
  columns = 0;
  duplicates = 0;
  matched = matched;
  stable_id = false;
}

abbrev pub expected_columns : Text → ℕ
expected_columns table = if text_eq table (codes "mart_ingestion_daily") then 6 else 7

-- `CheckCSV`, from the records that were read on.
unfoldable pub check_records :
    Text → Bool → Bool → Result (List (List Text)) → CsvResult × Option Error
check_records table matched allow_empty (err e) =
    (no_result table matched, some (message (codes "invalid CSV")))
check_records table matched allow_empty (ok []) =
    (no_result table matched, some (message (codes "invalid CSV")))
check_records table matched allow_empty (ok (header ∷ records)) =
    let r = record (no_result table matched) { rows = length records; columns = length header } in
    (
      r,
      if not (r.columns == expected_columns table)
          then some (message (codes "unexpected column count"))
          else if not matched
          then some (message (codes "CSV mismatch"))
          else if r.rows == 0 && not allow_empty
          then some (message (codes "unexpected empty CSV"))
          else none,
    )

unfoldable pub check_csv :
    (Text → Result (List (List Text))) → Text → Text → Text → Bool → CsvResult × Option Error
unfolding check_records
check_csv read_csv table want got allow_empty =
    check_records table (text_eq want got) allow_empty (read_csv got)

-- A map from tables to file IDs.
abbrev pub Ids : Type 0
Ids = List (Text × Text)

abbrev pub get_id : Ids → Text → Text
get_id [] table = []
get_id ((key, id) ∷ ids) table = if text_eq key table then id else get_id ids table

-- The loop over the files for one table: how many bear its name, and the last one's ID, if any.
unfoldable pub count_files : Text → List DriveFile → ℕ → Ids → ℕ × Ids
count_files table [] count ids = (count, ids)
count_files table (f ∷ files) count ids =
    let named = text_eq f.name (table ++ codes ".csv") in
    count_files table files (if named then count + 1 else count)
      (if named then (table, f.id) ∷ ids else ids)

-- The errors of the loop.
abbrev pub not_one : Text → Error
not_one table = message (table ++ codes ": expected one Drive CSV")

abbrev pub id_changed : Text → Error
id_changed table = message (table ++ codes ": file ID changed")

-- `previous != nil && previous[table] == ids[table]`.
abbrev pub is_stable : Option Ids → Ids → Text → Bool
is_stable none ids table = false
is_stable (some previous) ids table = text_eq (get_id previous table) (get_id ids table)

abbrev pub is_given : Option Ids → Bool
is_given none = false
is_given (some previous) = true

-- What `CheckDrive` returns.
pub record Checked : Type 0 where
  pub results : List CsvResult
  pub ids : Ids
  pub error : Option Error

module _ {W : Type 0} (read_csv : Text → Result (List (List Text))) (source : Source W)
    (dest : DriveClient W) (allow_empty : Bool) (previous : Option Ids) where
  -- From the bytes of both sides on: the result of the table, and the error that ends the loop, if
  -- there is one.
  unfoldable pub judge : Text → Ids → Text → Text → CsvResult × Option Error
  judge table ids want got =
      let (r, error) = check_csv read_csv table want got allow_empty in
      let stable = is_stable previous ids table in
      (
        record r { stable_id = stable },
        elim error [
          | some e ↦ some e
          | none ↦ if is_given previous && not stable then some (id_changed table) else none
        ],
      )

  abbrev ended : Text → Ids → List CsvResult → Error → Checked
  ended table ids results e = record {
    results = results ++ no_result table false ∷ [];
    ids = ids;
    error = some e;
  }

  -- From the result of the download on.
  unfoldable pub with_download : Text → Ids → List CsvResult → Text → Result Text → W → Checked × W
  with_download table ids results want (err e) w =
      (ended table ids results (wrapped (codes "download " ++ table ++ codes ": ") e), w)
  with_download table ids results want (ok got) w =
      let (r, error) = judge table ids want got in
      (record { results = results ++ r ∷ []; ids = ids; error = error }, w)

  -- From the result of the export on.
  unfoldable pub with_export : Text → Ids → List CsvResult → Result Text → W → Checked × W
  with_export table ids results (err e) w =
      (ended table ids results (wrapped (codes "export " ++ table ++ codes ": ") e), w)
  with_export table ids results (ok want) w =
      let (got, w') = dest.download_file (get_id ids table) w in
      with_download table ids results want got w'

  -- One table, of which `count` files were found. The message of the error leaves out the count.
  unfoldable pub check_table : Text → ℕ → Ids → List CsvResult → W → Checked × W
  check_table table count ids results w =
      let (want, w') = source.export_table_csv table w in
      let found = with_export table ids results want w' in
      if not (count == 1)
      then (
        record {
          results = results ++ record (no_result table false) { duplicates = count - 1 } ∷ [];
          ids = ids;
          error = some (not_one table);
        },
        w,
      )
      else found

  -- The loop over the tables.
  unfoldable pub check_tables : List DriveFile → List Text → Checked → W → Checked × W
  check_tables files [] c w = (c, w)
  check_tables files (table ∷ tables) c w =
      let (count, ids) = count_files table files 0 c.ids in
      let (c', w') = check_table table count ids c.results w in
      elim c'.error [ some e ↦ (c', w') | none ↦ check_tables files tables c' w' ]

  -- From the list of the folder on.
  unfoldable pub check_listed : Result (List DriveFile) → W → Checked × W
  check_listed (err e) w =
      (record { results = []; ids = []; error = some (wrapped (codes "list Drive files: ") e) }, w)
  check_listed (ok files) w =
      check_tables files GoldReport.tables (record { results = []; ids = []; error = none }) w

  unfoldable pub check_drive : Text → W → Checked × W
  check_drive folder w = let (files, w') = dest.list_files folder w in check_listed files w'
