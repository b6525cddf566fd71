-- ===== src/Etl/Worker/Loads.antt =====
-- What internal/etl/worker_pool.go loads, against the tables of iac/bigquery.tf.
use go_drive_etl.Common.{
  ℕ, none, some, true, [], ◌∷◌, Text, List, Option, ◌^◌, ◌+◌, ◌≡◌, All, All-append, Bool-cases, inl,
  inr, ltb, arith, refl,
}
use go_drive_etl.Domain.{File}
use go_drive_etl.Retro.{RetroLabel, RetroPeriod, SprintPolicy, period, extract_retro_label}
use go_drive_etl.Retro.Dates.{period-IsDate}
use go_drive_etl.Etl.Program.{Op, insert_rows, Row, AllCalls}
use go_drive_etl.Etl.Rows.{
  Document, ChunkRecord, chunk_record, record_row, chunk_rows_from, chunk_rows, deleted_row,
  file_row, label_cells, period_cells, int_of_int32, get_retro_start_date, get_retro_end_date,
}
use go_drive_etl.Etl.Rows.Content.{document}
use go_drive_etl.Etl.Schema.{
  Column, integer, drive_files_schema, chunks_schema, schema_of, IsDateText, Fits, Known, Conforms,
  column_of, has_key, keys_once, has_required,
}
use go_drive_etl.Etl.Worker.{process_file, document_of}
use go_drive_etl.Etl.Worker.Calls.{process_file-AllCalls}

-- A call that loads rows loads them into a table that takes them.
abbrev pub Loads : Op → Type 0
Loads (insert_rows table rows) =
    (schema : List Column) × (schema_of table ≡ some schema) × All (Conforms schema) rows
Loads _ = Unit

file_row-Conforms : (file : File) (t : ℕ) → Conforms drive_files_schema (file_row file t)
unfolding file_row column_of has_key keys_once has_required
file_row-Conforms file t = record {
  known = (
    (_, refl, tt),
    ((_, refl, tt), ((_, refl, tt), ((_, refl, tt), ((_, refl, tt), ((_, refl, tt), tt))))),
  );
  once = refl;
  complete = refl;
}

int_of_int32-Fits : (n : ℕ) → Fits integer (int_of_int32 n)
int_of_int32-Fits n = elim (Bool-cases (ltb n (2 ^ 31))) [
  | inl small ↦ rw small (ground (arith, small))
  | inr large ↦ rw large (omega arith)
]

-- The dates of a period, if there is one.
abbrev HasDates : Option RetroPeriod → Type 0
HasDates none = Unit
HasDates (some p) = IsDateText p.start_date × IsDateText p.end_date

abbrev ChunkCells : Row → Type 0
ChunkCells row = All (Known chunks_schema) row

label_cells-Known : (x : ChunkRecord) (month : Option Text) → ChunkCells (label_cells x month)
unfolding column_of
label_cells-Known x none = tt
label_cells-Known x (some month) = ((_, refl, tt), ((_, refl, int_of_int32-Fits _), tt))

record_row-Known :
    (x : ChunkRecord)
    → ChunkCells (period_cells x x.retro_start_date x.retro_end_date)
    → ChunkCells (record_row x)
unfolding record_row column_of
record_row-Known x dates =
    let rest =
      All-append (Known chunks_schema) (label_cells x x.retro_month) _
        (label_cells-Known x x.retro_month) dates in
    (
      (_, refl, tt),
      (
        (_, refl, int_of_int32-Fits _),
        (
          (_, refl, tt),
          (
            (_, refl, tt),
            (
              (_, refl, tt),
              ((_, refl, tt), ((_, refl, tt), ((_, refl, tt), ((_, refl, tt), rest)))),
            ),
          ),
        ),
      ),
    )

module _ (file : File) (version : Text) (t index : ℕ) (chunk : Text) where
  record_at : Option RetroLabel → Option RetroPeriod → ChunkRecord
  record_at label p = chunk_record (document file label p version t) index chunk

  period_cells-Known :
      (label : Option RetroLabel) (p : Option RetroPeriod)
      → HasDates p
      → (let x = record_at label p in
          ChunkCells (period_cells x x.retro_start_date x.retro_end_date))
  unfolding record_at chunk_record column_of get_retro_start_date get_retro_end_date
  period_cells-Known label none h = tt
  period_cells-Known label (some p) (start, end) = ((_, refl, start), ((_, refl, end), tt))

  record_row-once :
      (label : Option RetroLabel) (p : Option RetroPeriod)
      → (keys_once (record_row (record_at label p)) ≡ true)
        × (has_required chunks_schema (record_row (record_at label p)) ≡ true)
  unfolding record_at record_row chunk_record keys_once has_key has_required
  record_row-once none none = (refl, refl)
  record_row-once none (some p) = (refl, refl)
  record_row-once (some l) none = (refl, refl)
  record_row-once (some l) (some p) = (refl, refl)

module _ (d : Document) (h : HasDates d.period) where
  chunk_record-Conforms :
      (index : ℕ) (chunk : Text) → Conforms chunks_schema (record_row (chunk_record d index chunk))
  unfolding record_at
  chunk_record-Conforms index chunk =
      let (once, complete) =
        record_row-once d.file d.content_version d.ingested_at index chunk d.label d.period in
      record {
        known = record_row-Known _ (
            period_cells-Known d.file d.content_version d.ingested_at index chunk d.label d.period
              h);
        once = once;
        complete = complete;
      }

  chunk_rows_from-Conforms :
      (index : ℕ) (chunks : List Text)
      → All (Conforms chunks_schema) (chunk_rows_from d index chunks)
  unfolding chunk_rows_from
  chunk_rows_from-Conforms index [] = tt
  chunk_rows_from-Conforms index (chunk ∷ chunks) =
      (chunk_record-Conforms index chunk, chunk_rows_from-Conforms (index + 1) chunks)

  deleted_row-Conforms : Conforms chunks_schema (deleted_row d)
  unfolding deleted_row column_of keys_once has_key has_required
  deleted_row-Conforms = record {
    known = (
      (_, refl, tt),
      (
        (_, refl, omega arith),
        (
          (_, refl, tt),
          (
            (_, refl, tt),
            ((_, refl, tt), ((_, refl, tt), ((_, refl, tt), ((_, refl, tt), ((_, refl, tt), tt))))),
          ),
        ),
      ),
    );
    once = refl;
    complete = refl;
  }

  chunk_rows-Conforms : (chunks : List Text) → All (Conforms chunks_schema) (chunk_rows d chunks)
  unfolding chunk_rows chunk_rows_from
  chunk_rows-Conforms [] = (deleted_row-Conforms, tt)
  chunk_rows-Conforms (chunk ∷ chunks) = chunk_rows_from-Conforms 0 (chunk ∷ chunks)

-- The period that a policy assigns has two dates of the calendar.
period-HasDates :
    (policy : SprintPolicy) (label : Option RetroLabel) → HasDates (period policy label)
unfolding period
period-HasDates policy none = tt
period-HasDates policy (some label) = dates (period policy (some label)) refl
  where
    dates : (p : Option RetroPeriod) → period policy (some label) ≡ p → HasDates p
    dates none e = tt
    dates (some r) e =
        let (start, end, real, real', low, low', same, same') = period-IsDate policy label e in
        ((start, real, low, same), (end, real', low', same'))

module _ (hash : Text → Text) (policy : SprintPolicy) (file : File) where
  -- Every load that the body for a file makes, whatever the services reply, is into a table that
  -- iac/bigquery.tf declares, and its rows fit the table: each cell is of a column and has its
  -- type, with dates that are days of the calendar, no column has two cells, and each required
  -- column has one.
  pub process_file-Loads : AllCalls Loads (process_file hash policy file)
  process_file-Loads = process_file-AllCalls Loads hash policy file record {
    downloads = λ id. tt;
    exports = λ id mime_type. tt;
    context = tt;
    waits = λ delay. tt;
    clock = tt;
    counts = tt;
    counts_update = tt;
    updates = λ status. tt;
    chunks = λ content t chunks. (
      chunks_schema,
      unfold schema_of in refl,
      chunk_rows-Conforms (document_of hash policy file content t)
          (unfold document_of in period-HasDates policy (extract_retro_label content)) chunks,
    );
    metadata = λ t. (drive_files_schema, unfold schema_of in refl, (file_row-Conforms file t, tt));
  }
