-- ===== src/Etl/Current.antt =====
-- The view `chunks_current` of iac/bigquery.tf over the table that internal/etl/worker_pool.go
-- appends to. The view has one row at most for a file and an index, so it is a function from
-- those; each query of its WITH clause is a function here. Where rows tie under ORDER BY, SQL
-- takes any of them and the functions the first of the table.
pub mod Best
pub mod Latest
pub mod Reload
pub mod Loaded
pub mod Others
pub mod Shown
pub mod Retries
pub mod Completed
mod Tests
use go_drive_etl.Common.{
  ℕ, none, some, true, false, [], ◌∷◌, Text, codes, Bool, List, Option, if◌then◌else◌, text_eq,
  ◌&&◌, ◌||◌, ◌==◌, ◌+◌, ltb,
}
use go_drive_etl.Retro.{text_lt}
use go_drive_etl.Etl.Program.{Row, Value, text, int, negative, bool, time}
use go_drive_etl.Etl.Rows.Content.{cell}

-- A row of `chunks`: the columns that the view reads, and all of it.
pub record Chunk : Type 0 where
  pub file_id : Text
  pub chunk_index : ℕ
  pub content_version : Option Text
  pub ingested_at : Option ℕ
  pub is_deleted : Option Bool
  pub row : Row

abbrev string_cell : Option Value → Option Text
string_cell (some (text s)) = some s
string_cell _ = none

abbrev integer_cell : Option Value → ℕ
integer_cell (some (int n)) = n
integer_cell _ = 0

abbrev timestamp_cell : Option Value → Option ℕ
timestamp_cell (some (time t)) = some t
timestamp_cell _ = none

abbrev boolean_cell : Option Value → Option Bool
boolean_cell (some (bool b)) = some b
boolean_cell _ = none

abbrev or_nothing : Option Text → Text
or_nothing none = []
or_nothing (some s) = s

-- A loaded row; a missing cell is NULL. The worker loads no negative index for a document of
-- fewer than 2^31 chunks, and the model has none.
unfoldable pub chunk_of : Row → Chunk
chunk_of row = record {
  file_id = or_nothing (string_cell (cell (codes "file_id") row));
  chunk_index = integer_cell (cell (codes "chunk_index") row);
  content_version = string_cell (cell (codes "content_version") row);
  ingested_at = timestamp_cell (cell (codes "ingested_at") row);
  is_deleted = boolean_cell (cell (codes "is_deleted") row);
  row = row;
}

-- The order of `ingested_at`, with NULL before all times.
abbrev pub rank : Option ℕ → ℕ
rank none = 0
rank (some t) = t + 1

abbrev pub has_version : Text → Option Text → Bool
has_version version none = false
has_version version (some v) = text_eq v version

abbrev pub is_version : Text → Text → Chunk → Bool
is_version file version c = text_eq c.file_id file && has_version version c.content_version

-- `MAX(ingested_at)` of a file and a version in `version_candidates`.
abbrev pub greater : ℕ → ℕ → ℕ
greater a b = if ltb a b then b else a

unfoldable pub version_ingested : List Chunk → Text → Text → ℕ
version_ingested [] file version = 0
version_ingested (c ∷ chunks) file version =
    let rest = version_ingested chunks file version in
    if is_version file version c then greater (rank c.ingested_at) rest else rest

-- The versions of a file there.
abbrev pub version_of : Text → Chunk → List Text → List Text
version_of file c rest = elim c.content_version [
  | none ↦ rest
  | some v ↦ if text_eq c.file_id file then v ∷ rest else rest
]

unfoldable pub versions : List Chunk → Text → List Text
versions [] file = []
versions (c ∷ chunks) file = version_of file c (versions chunks file)

-- The first under `ORDER BY version_ingested_at DESC, content_version DESC`.
abbrev pub comes_before : (Text → ℕ) → Text → Text → Bool
comes_before at u v = ltb (at v) (at u) || (at v == at u && text_lt v u)

abbrev pub first_of : (Text → ℕ) → Text → Option Text → Text
first_of at v none = v
first_of at v (some u) = if comes_before at u v then u else v

unfoldable pub pick : (Text → ℕ) → List Text → Option Text
pick at [] = none
pick at (v ∷ vs) = some (first_of at v (pick at vs))

-- `latest_versions`.
unfoldable pub latest_version : List Chunk → Text → Option Text
latest_version chunks file = pick (version_ingested chunks file) (versions chunks file)

-- `deduplicated_chunks`: the row of a file, a version and an index.
abbrev pub in_partition : Text → Text → ℕ → Chunk → Bool
in_partition file version index c = is_version file version c && c.chunk_index == index

abbrev pub later : Option Chunk → Option Chunk → Option Chunk
later none b = b
later (some a) none = some a
later (some a) (some b) = if ltb (rank a.ingested_at) (rank b.ingested_at) then some b else some a

unfoldable pub deduplicated : List Chunk → Text → Text → ℕ → Option Chunk
deduplicated [] file version index = none
deduplicated (c ∷ chunks) file version index =
    let rest = deduplicated chunks file version index in
    if in_partition file version index c then later (some c) rest else rest

-- `WHERE COALESCE(chunks.is_deleted, FALSE) = FALSE`.
abbrev pub or_false : Option Bool → Bool
or_false none = false
or_false (some b) = b

abbrev pub not_deleted : Option Chunk → Option Chunk
not_deleted none = none
not_deleted (some c) = if or_false c.is_deleted then none else some c

-- The join.
abbrev pub of_version : List Chunk → Text → ℕ → Option Text → Option Chunk
of_version chunks file index none = none
of_version chunks file index (some version) = not_deleted (deduplicated chunks file version index)

unfoldable pub current : List Chunk → Text → ℕ → Option Chunk
current chunks file index = of_version chunks file index (latest_version chunks file)
