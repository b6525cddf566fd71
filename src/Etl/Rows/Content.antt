-- ===== src/Etl/Rows/Content.antt =====
-- What the rows for the chunks of a document hold, in internal/etl/worker_pool.go.
use mathlib.Core.Option
use go_drive_etl.Common.{
  ℕ, none, some, true, false, [], ◌∷◌, Text, codes, List, Option, if◌then◌else◌, text_eq, length,
  ◌+◌, ◌^◌, ◌%◌, ◌≤◌, ◌<◌, ◌≡◌, refl, arith, ap,
}
use go_drive_etl.Domain.{File}
use go_drive_etl.Retro.{RetroLabel, RetroPeriod}
use go_drive_etl.Etl.Program.{Row, Value, text, int, bool, time}
use go_drive_etl.Etl.Rows.{
  get_content_version, get_ingested_at, get_is_deleted, get_retro_month, get_retro_sequence,
  get_retro_start_date, get_retro_end_date, Document, chunk_record, record_row, chunk_rows_from,
  chunk_rows, deleted_row, int_of_int32,
}

-- `row[key]`.
abbrev pub cell : Text → Row → Option Value
cell key [] = none
cell key ((k, v) ∷ row) = if text_eq k key then some v else cell key row

-- A row for a chunk of the document: the labels and the period are there if the document has them.
pub record IsChunkRow (d : Document) (index : ℕ) (chunk : Text) (row : Row) : Type 0 where
  pub file_id : cell (codes "file_id") row ≡ some (text d.file.drive_file_id)
  pub chunk_index : cell (codes "chunk_index") row ≡ some (int index)
  pub content : cell (codes "content") row ≡ some (text chunk)
  pub content_version : cell (codes "content_version") row ≡ some (text d.content_version)
  pub ingested_at : cell (codes "ingested_at") row ≡ some (time d.ingested_at)
  pub is_deleted : cell (codes "is_deleted") row ≡ some (bool false)
  pub retro_month : cell (codes "retro_month") row ≡ Option.map (λ l. text l.month) d.label
  pub retro_sequence :
      cell (codes "retro_sequence") row ≡ Option.map (λ l. int_of_int32 l.sequence) d.label
  pub retro_start_date :
      cell (codes "retro_start_date") row ≡ Option.map (λ p. text p.start_date) d.period
  pub retro_end_date :
      cell (codes "retro_end_date") row ≡ Option.map (λ p. text p.end_date) d.period

-- One row for each chunk, numbered from `index` on.
abbrev pub AreChunkRows : Document → ℕ → List Text → List Row → Type 0
AreChunkRows d index [] [] = Unit
AreChunkRows d index [] (row ∷ rows) = ⊥
AreChunkRows d index (chunk ∷ chunks) [] = ⊥
AreChunkRows d index (chunk ∷ chunks) (row ∷ rows) =
    IsChunkRow d index chunk row × AreChunkRows d (index + 1) chunks rows

-- The row that is loaded for a document without chunks.
pub record IsDeletion (d : Document) (row : Row) : Type 0 where
  pub file_id : cell (codes "file_id") row ≡ some (text d.file.drive_file_id)
  pub chunk_index : cell (codes "chunk_index") row ≡ some (int 0)
  pub content_version : cell (codes "content_version") row ≡ some (text d.content_version)
  pub ingested_at : cell (codes "ingested_at") row ≡ some (time d.ingested_at)
  pub content : cell (codes "content") row ≡ some (text [])
  pub is_deleted : cell (codes "is_deleted") row ≡ some (bool true)

abbrev pub AreRowsOf : Document → List Text → List Row → Type 0
AreRowsOf d [] rows = (row : Row) × (rows ≡ row ∷ []) × IsDeletion d row
AreRowsOf d (chunk ∷ chunks) rows = AreChunkRows d 0 (chunk ∷ chunks) rows

index_kept : (n : ℕ) → n < 2 ^ 31 → int_of_int32 (n % 2 ^ 32) ≡ int n
index_kept n h = ground arith

-- A document by its fields.
abbrev pub document : File → Option RetroLabel → Option RetroPeriod → Text → ℕ → Document
document file label period version t = record {
  file = file;
  label = label;
  period = period;
  content_version = version;
  ingested_at = t;
}

record_row-document :
    (file : File) (label : Option RetroLabel) (period : Option RetroPeriod) (version : Text) (t : ℕ)
    (index : ℕ) (chunk : Text)
    → index < 2 ^ 31
    → IsChunkRow
        (document file label period version t)
        index
        chunk
        (record_row (chunk_record (document file label period version t) index chunk))
unfolding record_row chunk_record get_content_version get_ingested_at get_is_deleted get_retro_month
    get_retro_sequence get_retro_start_date get_retro_end_date
record_row-document file none none version t index chunk h = record {
  file_id = refl;
  chunk_index = ap some (index_kept index h);
  content = refl;
  content_version = refl;
  ingested_at = refl;
  is_deleted = refl;
  retro_month = refl;
  retro_sequence = refl;
  retro_start_date = refl;
  retro_end_date = refl;
}
record_row-document file none (some p) version t index chunk h = record {
  file_id = refl;
  chunk_index = ap some (index_kept index h);
  content = refl;
  content_version = refl;
  ingested_at = refl;
  is_deleted = refl;
  retro_month = refl;
  retro_sequence = refl;
  retro_start_date = refl;
  retro_end_date = refl;
}
record_row-document file (some l) none version t index chunk h = record {
  file_id = refl;
  chunk_index = ap some (index_kept index h);
  content = refl;
  content_version = refl;
  ingested_at = refl;
  is_deleted = refl;
  retro_month = refl;
  retro_sequence = refl;
  retro_start_date = refl;
  retro_end_date = refl;
}
record_row-document file (some l) (some p) version t index chunk h = record {
  file_id = refl;
  chunk_index = ap some (index_kept index h);
  content = refl;
  content_version = refl;
  ingested_at = refl;
  is_deleted = refl;
  retro_month = refl;
  retro_sequence = refl;
  retro_start_date = refl;
  retro_end_date = refl;
}

pub record_row-IsChunkRow :
    (d : Document) (index : ℕ) (chunk : Text)
    → index < 2 ^ 31
    → IsChunkRow d index chunk (record_row (chunk_record d index chunk))
record_row-IsChunkRow d =
    record_row-document d.file d.label d.period d.content_version d.ingested_at

chunk_rows_from-AreChunkRows :
    (d : Document) (index : ℕ) (chunks : List Text)
    → index + length chunks ≤ 2 ^ 31
    → AreChunkRows d index chunks (chunk_rows_from d index chunks)
unfolding chunk_rows_from
chunk_rows_from-AreChunkRows d index [] h = tt
chunk_rows_from-AreChunkRows d index (chunk ∷ chunks) h = (
  record_row-IsChunkRow d index chunk (omega arith),
  chunk_rows_from-AreChunkRows d (index + 1) chunks (omega arith),
)

-- The rows that are loaded for a document of at most 2^31 chunks: one for each chunk, in order,
-- with the chunk, its position, the file, the version, the time, no mark of deletion, and the
-- label and the period where the document has them; and for a document without chunks a single
-- row, empty and marked as deleted, of the same file, version and time.
pub chunk_rows-AreRowsOf :
    (d : Document) (chunks : List Text)
    → length chunks ≤ 2 ^ 31
    → AreRowsOf d chunks (chunk_rows d chunks)
unfolding chunk_rows_from
chunk_rows-AreRowsOf d [] h = (
  deleted_row d,
  unfold chunk_rows in refl,
  record {
    file_id = unfold deleted_row in refl;
    chunk_index = unfold deleted_row in refl;
    content_version = unfold deleted_row in refl;
    ingested_at = unfold deleted_row in refl;
    content = unfold deleted_row in refl;
    is_deleted = unfold deleted_row in refl;
  },
)
chunk_rows-AreRowsOf d (chunk ∷ chunks) h =
    unfold chunk_rows in chunk_rows_from-AreChunkRows d 0 (chunk ∷ chunks) (omega arith)
