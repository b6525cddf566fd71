-- ===== src/GoldVerify/Query.antt =====
-- internal/goldverify/query.go: the comparison query. `%[1]s`, `%[2]s` and `%[3]s` of the format
-- are the project and the datasets of Silver and Gold.
pub mod Scan
pub mod Tables
pub mod Names
pub mod Quoting
use go_drive_etl.Common.{
  ℕ, zero, suc, none, some, true, false, [], ◌∷◌, ok, err, Text, codes, Bool, Error, List, Option,
  Result, if◌then◌else◌, message, not, leb, ◌&&◌, ◌||◌, ◌==◌, length, ◌++◌, ◌-◌, has_prefix,
}

abbrev pub is_lower : ℕ → Bool
is_lower c = leb b'a' c && leb c b'z'

abbrev pub is_upper : ℕ → Bool
is_upper c = leb b'A' c && leb c b'Z'

abbrev pub is_digit : ℕ → Bool
is_digit c = leb b'0' c && leb c b'9'

-- `[a-z0-9-]*[a-z0-9]$`.
abbrev pub is_project_tail : Text → Bool
is_project_tail [] = false
is_project_tail (c ∷ []) = is_lower c || is_digit c
is_project_tail (c ∷ d ∷ s) = (is_lower c || is_digit c || c == b'-') && is_project_tail (d ∷ s)

-- `^[a-z][a-z0-9-]{4,61}[a-z0-9]$`.
unfoldable pub matches_project : Text → Bool
matches_project [] = false
matches_project (c ∷ s) = is_lower c && leb 5 (length s) && leb (length s) 62 && is_project_tail s

abbrev pub is_word : ℕ → Bool
is_word c = is_lower c || is_upper c || is_digit c || c == b'_'

abbrev pub all_words : Text → Bool
all_words [] = true
all_words (c ∷ s) = is_word c && all_words s

-- `^[A-Za-z_][A-Za-z0-9_]*$`.
unfoldable pub matches_name : Text → Bool
matches_name [] = false
matches_name (c ∷ s) = (is_lower c || is_upper c || c == b'_') && all_words s

abbrev pub invalid_configuration : Error
invalid_configuration = message (codes "invalid project/dataset configuration")

unfoldable pub validate : Text → Text → Text → Option Error
validate project silver gold =
    if not (matches_project project) || not (matches_name silver) || not (matches_name gold)
    then some invalid_configuration
    else none

-- `strings.ReplaceAll(s, old, new)` where `old` is not empty. The first argument counts the units
-- of a match that are still to be left out.
unfoldable pub replace_from : ℕ → Text → Text → Text → Text
replace_from skip old new [] = []
replace_from (suc skip) old new (c ∷ s) = replace_from skip old new s
replace_from zero old new (c ∷ s) = elim (has_prefix (c ∷ s) old) [
  | true ↦ new ++ replace_from (length old - 1) old new s
  | false ↦ c ∷ replace_from zero old new s
]

-- The tables that the query names.
pub data Table : Type 0 where
  silver_chunks daily latest : Table

abbrev pub table_name : Table → Text
table_name silver_chunks = codes "silver_chunks"
table_name daily = codes "mart_ingestion_daily"
table_name latest = codes "mart_file_latest"

-- The format: each table with the text before it, and the text behind the last.
unfoldable pub template : List (Text × Table)
template =
    (
      codes
          "WITH\n daily AS (\n SELECT ingested_date, COUNT(DISTINCT file_id) file_count, COUNT(*) chunk_count,\n SUM(content_length) content_length, COUNTIF(is_embedded) embedded_chunk_count,\n COUNTIF(NOT is_embedded) pending_embedding_chunk_count\n FROM ",
      silver_chunks,
    )
    ∷ (
      codes
          " GROUP BY ingested_date),\n latest AS (\n SELECT file_id, ANY_VALUE(content_version) content_version, MAX(ingested_at) latest_ingested_at,\n COUNT(*) chunk_count, SUM(content_length) content_length, COUNTIF(is_embedded) embedded_chunk_count,\n COUNTIF(NOT is_embedded) pending_embedding_chunk_count\n FROM ",
      silver_chunks,
    )
    ∷ (
      codes
          " GROUP BY file_id),\n d_missing AS (SELECT * FROM daily EXCEPT DISTINCT SELECT * FROM ",
      daily,
    )
    ∷ (codes "),\n d_extra AS (SELECT * FROM ", daily)
    ∷ (
      codes
          " EXCEPT DISTINCT SELECT * FROM daily),\n f_missing AS (SELECT * FROM latest EXCEPT DISTINCT SELECT * FROM ",
      latest,
    )
    ∷ (codes "),\n f_extra AS (SELECT * FROM ", latest)
    ∷ (
      codes " EXCEPT DISTINCT SELECT * FROM latest)\n SELECT\n (SELECT COUNT(*) FROM ",
      silver_chunks,
    )
    ∷ (
      codes
          ") silver_chunks,\n (SELECT COUNT(*) FROM daily) expected_daily,\n (SELECT COUNT(*) FROM latest) expected_latest,\n (SELECT COUNT(*) FROM ",
      daily,
    )
    ∷ (codes ") actual_daily,\n (SELECT COUNT(*) FROM ", latest)
    ∷ []

unfoldable pub template_end : Text
template_end =
    codes
      ") actual_latest,\n (SELECT COUNT(*) FROM d_missing) daily_missing,\n (SELECT COUNT(*) FROM d_extra) daily_extra,\n (SELECT COUNT(*) FROM f_missing) latest_missing,\n (SELECT COUNT(*) FROM f_extra) latest_extra,\n (SELECT COALESCE(SUM(file_count),0) FROM daily) dashboard_files,\n (SELECT COALESCE(SUM(pending_embedding_chunk_count),0) FROM daily) dashboard_pending"

-- A format filled in, with what each table is written as.
unfoldable pub fill : (Table → Text) → List (Text × Table) → Text → Text
fill write [] end = end
fill write ((text, table) ∷ rest) end = text ++ (write table ++ fill write rest end)

module _ (project silver gold : Text) where
  abbrev pub dataset_of : Table → Text
  dataset_of silver_chunks = silver
  dataset_of daily = gold
  dataset_of latest = gold

  -- `project.dataset.table`.
  abbrev pub path_of : Table → Text
  path_of table = project ++ b'.' ∷ (dataset_of table ++ b'.' ∷ table_name table)

  abbrev pub quoted_path : Table → Text
  quoted_path table = b'`' ∷ (path_of table ++ b'`' ∷ [])

  abbrev pub quote_table : Table → Text → Text
  quote_table table sql = replace_from zero (path_of table) (quoted_path table) sql

  unfoldable pub comparison_sql : Result Text
  unfolding fill
  comparison_sql = elim (validate project silver gold) [
    | some e ↦ err e
    | none ↦ ok (
        quote_table latest
          (quote_table daily (quote_table silver_chunks (fill path_of template template_end))))
  ]
