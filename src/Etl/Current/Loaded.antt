-- ===== src/Etl/Current/Loaded.antt =====
-- The rows that internal/etl/worker_pool.go loads for a document, and what the view
-- `chunks_current` of iac/bigquery.tf shows of it and of the other files then.
use mathlib.Core.Option
use go_drive_etl.Common.{
  ℕ, zero, suc, none, some, false, [], ◌∷◌, Text, List, Option, text_eq_refl, ◌==◌, ◌+◌, ◌^◌, ◌≡◌,
  ◌≤◌, ◌<◌, refl, arith, ap, ◌∙◌, map, length, All, true,
}
use go_drive_etl.Etl.Rows.{
  Document, chunk_record, record_row, chunk_rows_from, chunk_rows, deleted_row,
}
use go_drive_etl.Etl.Rows.Content.{record_row-IsChunkRow}
use go_drive_etl.Etl.Current.{Chunk, chunk_of, in_partition, deduplicated}
use go_drive_etl.Etl.Current.Reload.{IsNew}

-- The chunk at a position.
abbrev pub get_elem? : {A : Type 0} → List A → ℕ → Option A
get_elem? [] i = none
get_elem? (x ∷ xs) zero = some x
get_elem? (x ∷ xs) (suc i) = get_elem? xs i

module _ (d : Document) where
  -- The rows of the document's chunks in the table.
  unfoldable pub loaded : List Text → List Chunk
  loaded chunks = map chunk_of (chunk_rows d chunks)

  abbrev pub shown_chunk : ℕ → Text → Chunk
  shown_chunk index chunk = chunk_of (record_row (chunk_record d index chunk))

  abbrev pub New : Chunk → Type 0
  New c = IsNew d.file.drive_file_id d.content_version d.ingested_at c

  pub record IsShown (index : ℕ) (c : Chunk) : Type 0 where
    pub new : New c
    pub at_index : c.chunk_index ≡ index
    pub there : c.is_deleted ≡ some false

  pub shown_chunk-IsShown :
      (index : ℕ) (chunk : Text) → index < 2 ^ 31 → IsShown index (shown_chunk index chunk)
  unfolding chunk_of
  shown_chunk-IsShown index chunk h =
      let v = record_row-IsChunkRow d index chunk h in
      record {
        new = record {
          same_file = rw v.file_id refl;
          same_version = rw v.content_version refl;
          same_time = rw v.ingested_at refl;
        };
        at_index = rw v.chunk_index refl;
        there = rw v.is_deleted refl;
      }

  abbrev pub rows_from : ℕ → List Text → List Chunk
  rows_from k chunks = map chunk_of (chunk_rows_from d k chunks)

  rows_from-New :
      (k : ℕ) (chunks : List Text) → k + length chunks ≤ 2 ^ 31 → All New (rows_from k chunks)
  unfolding chunk_rows_from
  rows_from-New k [] fits = tt
  rows_from-New k (chunk ∷ chunks) fits =
      let v = shown_chunk-IsShown k chunk (omega (arith, fits)) in
      (v.new, rows_from-New (k + 1) chunks (omega (arith, fits)))

  pub length-rows_from : (k : ℕ) (chunks : List Text) → length (rows_from k chunks) ≡ length chunks
  unfolding chunk_rows_from
  length-rows_from k [] = refl
  length-rows_from k (chunk ∷ chunks) = omega (arith, length-rows_from (k + 1) chunks)

  -- The row of a document without chunks.
  abbrev pub tombstone : Chunk
  tombstone = chunk_of (deleted_row d)

  pub tombstone-New : New tombstone
  unfolding chunk_of deleted_row
  tombstone-New = record { same_file = refl; same_version = refl; same_time = refl }

  pub tombstone-deleted : (tombstone.chunk_index ≡ 0) × (tombstone.is_deleted ≡ some true)
  unfolding chunk_of deleted_row
  tombstone-deleted = (refl, refl)

  pub loaded_none : loaded [] ≡ tombstone ∷ []
  unfolding loaded chunk_rows chunk_rows_from
  loaded_none = refl

  pub loaded_some :
      (chunk : Text) (chunks : List Text) → loaded (chunk ∷ chunks) ≡ rows_from 0 (chunk ∷ chunks)
  unfolding loaded chunk_rows chunk_rows_from
  loaded_some chunk chunks = refl

  pub loaded-New : (chunks : List Text) → length chunks ≤ 2 ^ 31 → All New (loaded chunks)
  loaded-New [] fits = rw loaded_none (tombstone-New, tt)
  loaded-New (chunk ∷ chunks) fits =
      rw loaded_some (rows_from-New 0 (chunk ∷ chunks) (omega (arith, fits)))

  pub loaded-cons :
      (chunks : List Text) → (c : Chunk) × (more : List Chunk) × (loaded chunks ≡ c ∷ more)
  unfolding chunk_rows_from
  loaded-cons [] = (_, _, loaded_none)
  loaded-cons (chunk ∷ chunks) = (_, _, loaded_some chunk chunks)

  in_partition-shown :
      (k index : ℕ) (c : Chunk)
      → IsShown k c
      → in_partition d.file.drive_file_id d.content_version index c ≡ (k == index)
  in_partition-shown k index c v =
      let n = v.new in
      rw
        (
          n.same_file,
          n.same_version,
          v.at_index,
          text_eq_refl d.file.drive_file_id,
          text_eq_refl d.content_version,
        )
        refl

  rows_from-before :
      (k : ℕ) (chunks : List Text) (index : ℕ)
      → k + length chunks ≤ 2 ^ 31
      → index < k
      → deduplicated (rows_from k chunks) d.file.drive_file_id d.content_version index ≡ none
  unfolding deduplicated chunk_rows_from
  rows_from-before k [] index fits h = refl
  rows_from-before k (chunk ∷ chunks) index fits h =
      let other : (k == index) ≡ false = ground (arith, h) in
      rw
        (in_partition-shown k index (shown_chunk k chunk)
            (shown_chunk-IsShown k chunk (omega (arith, fits)))
          ∙ other)
        (rows_from-before (k + 1) chunks index (omega (arith, fits)) (omega (arith, h)))

  pub rows_from-at :
      (k : ℕ) (chunks : List Text) (j index : ℕ)
      → k + length chunks ≤ 2 ^ 31
      → k + j ≡ index
      → deduplicated (rows_from k chunks) d.file.drive_file_id d.content_version index
        ≡ Option.map (shown_chunk index) (get_elem? chunks j)
  unfolding deduplicated chunk_rows_from
  rows_from-at k [] j index fits e = refl
  rows_from-at k (chunk ∷ chunks) zero index fits e =
      let same : k ≡ index = omega (arith, e) in
      let at_k =
        in_partition-shown k index (shown_chunk k chunk)
          (shown_chunk-IsShown k chunk (omega (arith, fits))) in
      rw (at_k, rows_from-before (k + 1) chunks index (omega (arith, fits)) (omega (arith, e)))
        (ground (arith, same, ap (λ i. shown_chunk i chunk) same))
  rows_from-at k (chunk ∷ chunks) (suc j) index fits e =
      let other : (k == index) ≡ false = ground (arith, e) in
      let at_k =
        in_partition-shown k index (shown_chunk k chunk)
          (shown_chunk-IsShown k chunk (omega (arith, fits))) in
      rw (at_k ∙ other)
        (rows_from-at (k + 1) chunks j index (omega (arith, fits)) (omega (arith, e)))
