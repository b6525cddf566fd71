-- ===== src/Bq.antt =====
-- internal/bq/client.go. The client of BigQuery, the rows of JSON and `fmt.Sprint` are arguments;
-- the pages that the iterator fetches are those of the moment of the query.
pub mod Export
pub mod Load
pub mod Delivery
mod Tests
use go_drive_etl.Common.{
  ℕ, none, some, true, false, [], ◌∷◌, ok, err, Text, codes, Bool, Error, List, Option, Result,
  if◌then◌else◌, message, not, is_empty, ◌++◌, map,
}
use go_drive_etl.Csv.{write_record, newline}
use go_drive_etl.Etl.Program.{Row}
use go_drive_etl.GoldVerify.Query.{matches_name}

-- What the calls of `Next` give: each row by the values of its columns, nil where there is none.
pub data Rows (A : Type 0) : Type 0 where
  done : Rows A
  failed : Error → Rows A
  next : (Text → Option A) → Rows A → Rows A

-- `bigquery.RowIterator`, with the names of the schema's columns.
pub record RowIterator (A : Type 0) : Type 0 where
  pub schema : List Text
  pub rows : Rows A

-- What the code uses of `*bigquery.Client`: the project, the result of a query, and a load job
-- that appends newline-delimited JSON to a table. `run` gives the job's `Wait`, and that the
-- `Err` of the status.
pub record BigQuery (A W : Type 0) : Type 0 where
  pub project : Text
  pub read : Text → W → Result (RowIterator A) × W
  pub run : Text → Text → Text → W → Result (W → Result (Option Error) × W) × W

-- `Client`.
pub record Client (A W : Type 0) : Type 0 where
  pub bq : BigQuery A W
  pub dataset : Text
  pub export_dataset : Text

-- `NewClient`.
unfoldable pub new_client :
    {A W : Type 0}
    → (Text → Text)
    → (Text → W → Result (BigQuery A W) × W)
    → W
    → Result (Client A W) × W
new_client getenv connect w =
    let gold = getenv (codes "BIGQUERY_GOLD_DATASET_ID") in
    let (client, w') = connect (getenv (codes "BIGQUERY_PROJECT_ID")) w in
    elim client [
      | err e ↦ (err e, w')
      | ok bq ↦ (
        ok (record {
          bq = bq;
          dataset = getenv (codes "BIGQUERY_DATASET_ID");
          export_dataset = if is_empty gold then codes "etl_gold" else gold;
        }),
        w',
      )
    ]

-- `tableNamePattern.MatchString`.
unfoldable pub matches_table : Text → Bool
unfolding matches_name
matches_table table = matches_name table

-- The message leaves out the name that `%q` prints.
abbrev pub invalid_table : Error
invalid_table = message (codes "invalid table name")

module _ {A : Type 0} (sprint : A → Text) where
  -- The cells of `writeRow`.
  unfoldable pub record_of : List Text → (Text → Option A) → List Text
  record_of schema row = map (λ name. elim (row name) [ none ↦ [] | some v ↦ sprint v ]) schema

  -- The loop behind the first row, with the bytes that are written.
  unfoldable pub write_rows : List Text → Text → Rows A → Result Text
  unfolding record_of
  write_rows schema buf done = ok buf
  write_rows schema buf (failed e) = err e
  write_rows schema buf (next row rest) =
      write_rows schema (buf ++ write_record (record_of schema row)) rest

  -- From the first row on: a `Next` behind the last row says again that there is none.
  unfoldable pub export_rows : List Text → Rows A → Result Text
  unfolding write_rows
  export_rows schema (failed e) = err e
  export_rows schema done = write_rows schema (write_record schema) done
  export_rows schema (next row rest) =
      write_rows schema (write_record schema ++ write_record (record_of schema row)) rest

-- The loop over the rows, with the bytes that are written.
unfoldable pub write_lines : (Row → Result Text) → Text → List Row → Result Text
write_lines marshal buf [] = ok buf
write_lines marshal buf (row ∷ rows) = elim (marshal row) [
  | err e ↦ err e
  | ok line ↦ write_lines marshal (buf ++ line ++ newline ∷ []) rows
]

module _ {A W : Type 0} (c : Client A W) where
  unfoldable pub export_query : Text → Text
  export_query table =
      codes "SELECT * FROM `"
      ++ (c.bq.project
          ++ (codes "." ++ (c.export_dataset ++ (codes "." ++ (table ++ codes "` ORDER BY 1")))))

  -- `ExportTableCSV`.
  unfoldable pub export_table_csv : (A → Text) → Text → W → Result Text × W
  unfolding matches_table export_query export_rows
  export_table_csv sprint table w =
      let (iter, w') = c.bq.read (export_query table) w in
      if not (matches_table table)
      then (err invalid_table, w)
      else elim iter [ err e ↦ (err e, w') | ok it ↦ (export_rows sprint it.schema it.rows, w') ]

  -- The load job.
  unfoldable pub run_job : Text → Text → W → Option Error × W
  run_job table content w =
      let (job, w') = c.bq.run c.dataset table content w in
      elim job [
        | err e ↦ (some e, w')
        | ok wait ↦
            let (status, w'') = wait w' in
            elim status [ err e ↦ (some e, w'') | ok error ↦ (error, w'') ]
      ]

  -- `loadRows`, which `InsertRows` is.
  unfoldable pub load_rows : (Row → Result Text) → Text → List Row → W → Option Error × W
  unfolding write_lines run_job
  load_rows marshal table rows w = elim (write_lines marshal [] rows) [
    | err e ↦ (some e, w)
    | ok content ↦ run_job table content w
  ]
