-- ===== src/Etl/Schema.antt =====
-- The tables that iac/bigquery.tf declares for the loads of internal/etl/worker_pool.go, and the
-- rows that fit them.
use go_drive_etl.Common.{
  none, some, true, false, [], ◌∷◌, Text, codes, Bool, List, Option, if◌then◌else◌, text_eq, not,
  ◌&&◌, ◌||◌, ◌^◌, ◌<◌, ◌≤◌, ◌≡◌, All,
}
use go_drive_etl.Retro.Calendar.{Date, format_date}
use go_drive_etl.Retro.Calendar.Steps.{IsDate}
use go_drive_etl.Etl.Program.{Row, Value, text, int, negative, bool, time}

pub data ColumnType : Type 0 where
  string integer boolean timestamp date : ColumnType

pub record Column : Type 0 where
  pub name : Text
  pub column_type : ColumnType
  pub required : Bool

abbrev pub nullable : Text → ColumnType → Column
nullable name column_type = record { name = name; column_type = column_type; required = false }

abbrev pub required_column : Text → ColumnType → Column
required_column name column_type = record {
  name = name;
  column_type = column_type;
  required = true;
}

abbrev pub drive_files_schema : List Column
drive_files_schema =
    required_column (codes "drive_file_id") string
    ∷ nullable (codes "path") string
    ∷ nullable (codes "checksum") string
    ∷ nullable (codes "mime_type") string
    ∷ nullable (codes "sync_status") string
    ∷ nullable (codes "updated_at") timestamp
    ∷ []

abbrev pub chunks_schema : List Column
chunks_schema =
    required_column (codes "file_id") string
    ∷ required_column (codes "chunk_index") integer
    ∷ required_column (codes "content") string
    ∷ required_column (codes "embedding_status") string
    ∷ nullable (codes "content_version") string
    ∷ nullable (codes "ingested_at") timestamp
    ∷ nullable (codes "is_deleted") boolean
    ∷ nullable (codes "retro_start_date") date
    ∷ nullable (codes "retro_end_date") date
    ∷ nullable (codes "document_name") string
    ∷ nullable (codes "drive_url") string
    ∷ nullable (codes "retro_month") string
    ∷ nullable (codes "retro_sequence") integer
    ∷ []

-- The schema of a table that the worker loads.
unfoldable pub schema_of : Text → Option (List Column)
schema_of table =
    if text_eq table (codes "drive_files")
    then some drive_files_schema
    else if text_eq table (codes "chunks")
    then some chunks_schema
    else none

-- A date of the calendar from the year 1 to 9999, written YYYY-MM-DD.
abbrev pub IsDateText : Text → Type 0
IsDateText s = (d : Date) × IsDate d × (d.year ≤ 9999) × (s ≡ format_date d)

-- Whether a value can stand in a column; an integer has 64 bits.
abbrev pub Fits : ColumnType → Value → Type 0
Fits string (text s) = Unit
Fits integer (int n) = n < 2 ^ 63
Fits integer (negative n) = n ≤ 2 ^ 63
Fits boolean (bool b) = Unit
Fits timestamp (time t) = Unit
Fits date (text s) = IsDateText s
Fits _ _ = ⊥

unfoldable pub column_of : List Column → Text → Option Column
column_of [] key = none
column_of (c ∷ schema) key = if text_eq c.name key then some c else column_of schema key

unfoldable pub has_key : Text → Row → Bool
has_key key [] = false
has_key key ((k, v) ∷ row) = text_eq k key || has_key key row

unfoldable pub keys_once : Row → Bool
unfolding has_key
keys_once [] = true
keys_once ((k, v) ∷ row) = not (has_key k row) && keys_once row

unfoldable pub has_required : List Column → Row → Bool
unfolding has_key
has_required [] row = true
has_required (c ∷ schema) row = (not c.required || has_key c.name row) && has_required schema row

-- What a cell of a row says is known of the table.
abbrev pub Known : List Column → Text × Value → Type 0
Known schema (key, value) =
    (c : Column) × (column_of schema key ≡ some c) × Fits c.column_type value

-- A row that the table takes: each cell is of a column and can stand in it, no column has two,
-- and each required column has one.
pub record Conforms (schema : List Column) (row : Row) : Type 0 where
  pub known : All (Known schema) row
  pub once : keys_once row ≡ true
  pub complete : has_required schema row ≡ true
