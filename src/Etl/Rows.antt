-- ===== src/Etl/Rows.antt =====
-- The rows that internal/etl/worker_pool.go loads: the chunks of a Markdown file, by way of the
-- message `ChunkRecord` of internal/pb/record.pb.go, and the metadata of a file. A Go map is the
-- list of its entries; each key stands once.
pub mod Content
use mathlib.Core.Option
use go_drive_etl.Common.{
  ℕ, none, some, true, false, [], ◌∷◌, Text, codes, Bool, List, Option, if◌then◌else◌, ◌%◌, ◌++◌,
  ltb, ◌+◌, ◌^◌, ◌-◌,
}
use go_drive_etl.Domain.{File, status_done}
use go_drive_etl.Retro.{RetroLabel, RetroPeriod}
use go_drive_etl.Etl.Program.{Row, Value, text, int, negative, bool, time}

-- An int32 is the natural number below 2^32 with its bits.
pub record ChunkRecord : Type 0 where
  pub file_id : Text
  pub chunk_index : ℕ
  pub content : Text
  pub embedding_status : Text
  pub retro_start_date : Option Text
  pub retro_end_date : Option Text
  pub document_name : Option Text
  pub drive_url : Option Text
  pub content_version : Option Text
  pub ingested_at : Option ℕ
  pub is_deleted : Option Bool
  pub retro_month : Option Text
  pub retro_sequence : Option ℕ

-- `if x.F != nil { return *x.F }; return ""`.
abbrev pub text_or_empty : Option Text → Text
text_or_empty none = []
text_or_empty (some s) = s

unfoldable pub get_retro_start_date : ChunkRecord → Text
get_retro_start_date x = text_or_empty x.retro_start_date

unfoldable pub get_retro_end_date : ChunkRecord → Text
get_retro_end_date x = text_or_empty x.retro_end_date

unfoldable pub get_document_name : ChunkRecord → Text
get_document_name x = text_or_empty x.document_name

unfoldable pub get_drive_url : ChunkRecord → Text
get_drive_url x = text_or_empty x.drive_url

unfoldable pub get_content_version : ChunkRecord → Text
get_content_version x = text_or_empty x.content_version

unfoldable pub get_retro_month : ChunkRecord → Text
get_retro_month x = text_or_empty x.retro_month

unfoldable pub get_is_deleted : ChunkRecord → Bool
get_is_deleted x = elim x.is_deleted [ none ↦ false | some b ↦ b ]

unfoldable pub get_retro_sequence : ChunkRecord → ℕ
get_retro_sequence x = elim x.retro_sequence [ none ↦ 0 | some n ↦ n ]

-- `x.GetIngestedAt().AsTime()`, where a missing timestamp is the epoch.
unfoldable pub get_ingested_at : ChunkRecord → ℕ
get_ingested_at x = elim x.ingested_at [ none ↦ 0 | some t ↦ t ]

-- `int(n)` of an int32.
abbrev pub int_of_int32 : ℕ → Value
int_of_int32 n = if ltb n (2 ^ 31) then int n else negative (2 ^ 32 - n)

unfoldable pub drive_url_of : Text → Text
drive_url_of id = codes "https://drive.google.com/file/d/" ++ id ++ codes "/view"

-- What all chunks of a document share: the file, its label, period, version and time.
pub record Document : Type 0 where
  pub file : File
  pub label : Option RetroLabel
  pub period : Option RetroPeriod
  pub content_version : Text
  pub ingested_at : ℕ

unfoldable pub chunk_record : Document → ℕ → Text → ChunkRecord
unfolding drive_url_of
chunk_record d index chunk = record {
  file_id = d.file.drive_file_id;
  chunk_index = index % 2 ^ 32;
  content = chunk;
  embedding_status = codes "pending";
  retro_start_date = Option.map (λ p. p.start_date) d.period;
  retro_end_date = Option.map (λ p. p.end_date) d.period;
  document_name = some d.file.path;
  drive_url = some (drive_url_of d.file.drive_file_id);
  content_version = some d.content_version;
  ingested_at = some d.ingested_at;
  is_deleted = some false;
  retro_month = Option.map (λ l. l.month) d.label;
  retro_sequence = Option.map (λ l. l.sequence) d.label;
}

-- `if record.RetroMonth != nil { … }`.
abbrev pub label_cells : ChunkRecord → Option Text → Row
label_cells x none = []
label_cells x (some month) =
    (codes "retro_month", text (get_retro_month x))
    ∷ (codes "retro_sequence", int_of_int32 (get_retro_sequence x))
    ∷ []

-- `if record.RetroStartDate != nil && record.RetroEndDate != nil { … }`.
abbrev pub period_cells : ChunkRecord → Option Text → Option Text → Row
period_cells x (some start) (some end) =
    (codes "retro_start_date", text (get_retro_start_date x))
    ∷ (codes "retro_end_date", text (get_retro_end_date x))
    ∷ []
period_cells x _ _ = []

unfoldable pub record_row : ChunkRecord → Row
record_row x =
    ((codes "file_id", text x.file_id)
      ∷ (codes "chunk_index", int_of_int32 x.chunk_index)
      ∷ (codes "content", text x.content)
      ∷ (codes "embedding_status", text x.embedding_status)
      ∷ (codes "content_version", text (get_content_version x))
      ∷ (codes "ingested_at", time (get_ingested_at x))
      ∷ (codes "is_deleted", bool (get_is_deleted x))
      ∷ (codes "document_name", text (get_document_name x))
      ∷ (codes "drive_url", text (get_drive_url x))
      ∷ [])
    ++ (label_cells x x.retro_month ++ period_cells x x.retro_start_date x.retro_end_date)

-- `for index, chunk := range chunks { … }`.
unfoldable pub chunk_rows_from : Document → ℕ → List Text → List Row
chunk_rows_from d index [] = []
chunk_rows_from d index (chunk ∷ chunks) =
    record_row (chunk_record d index chunk) ∷ chunk_rows_from d (index + 1) chunks

-- The row that says that a document is empty now.
unfoldable pub deleted_row : Document → Row
unfolding drive_url_of
deleted_row d =
    (codes "file_id", text d.file.drive_file_id)
    ∷ (codes "chunk_index", int 0)
    ∷ (codes "content", text [])
    ∷ (codes "embedding_status", text (codes "pending"))
    ∷ (codes "content_version", text d.content_version)
    ∷ (codes "ingested_at", time d.ingested_at)
    ∷ (codes "is_deleted", bool true)
    ∷ (codes "document_name", text d.file.path)
    ∷ (codes "drive_url", text (drive_url_of d.file.drive_file_id))
    ∷ []

-- `if len(chunkRows) == 0 { … }`.
abbrev pub or_deleted : Document → List Row → List Row
or_deleted d [] = deleted_row d ∷ []
or_deleted d (row ∷ rows) = row ∷ rows

unfoldable pub chunk_rows : Document → List Text → List Row
chunk_rows d chunks = or_deleted d (chunk_rows_from d 0 chunks)

unfoldable pub file_row : File → ℕ → Row
file_row file t =
    (codes "drive_file_id", text file.drive_file_id)
    ∷ (codes "path", text file.path)
    ∷ (codes "checksum", text file.checksum)
    ∷ (codes "mime_type", text file.mime_type)
    ∷ (codes "sync_status", text status_done)
    ∷ (codes "updated_at", time t)
    ∷ []
