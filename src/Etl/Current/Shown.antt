-- ===== src/Etl/Current/Shown.antt =====
-- What the view `chunks_current` of iac/bigquery.tf shows behind the load of a document by
-- internal/etl/worker_pool.go.
use mathlib.Core.Option
use go_drive_etl.Common.{
  sym, text_eq_iff, text_eq_refl, ◌==◌, if◌then◌else◌, true, Bool-cases, inl, inr, ℕ, zero, suc,
  none, some, false, [], ◌∷◌, Text, List, Option, text_eq, ◌++◌, ◌^◌, ◌≡◌, ◌≤◌, ◌<◌, refl, arith,
  ap, ◌∙◌, All, All-map, length,
}
use mathlib.Core.Path.{subst}
use go_drive_etl.Etl.Rows.{Document}
use go_drive_etl.Etl.Current.{
  Chunk, later, deduplicated, latest_version, or_false, not_deleted, of_version, current,
}
use go_drive_etl.Etl.Current.Best.{repeated, deduplicated-append, deduplicated-repeated, IsOther}
use go_drive_etl.Etl.Current.Reload.{
  IsOlder, later-new, deduplicated-IsOlder, deduplicated-IsEarly, latest_version-IsNew,
}
use go_drive_etl.Etl.Current.Loaded.{
  get_elem?, length-rows_from, loaded_none, shown_chunk-IsShown, loaded, New, loaded-New,
  loaded-cons, shown_chunk, tombstone, loaded_some, tombstone-New, rows_from-at, tombstone-deleted,
}
use go_drive_etl.Etl.Current.Others.{repeated-All, repeated-cons, later-none, current-others}

get_elem?-bounds :
    (chunks : List Text) (i : ℕ) {chunk : Text}
    → get_elem? chunks i ≡ some chunk
    → i < length chunks
get_elem?-bounds [] i e = cc
get_elem?-bounds (x ∷ chunks) zero e = omega arith
get_elem?-bounds (x ∷ chunks) (suc i) e = omega (arith, get_elem?-bounds chunks i e)

get_elem?-none : (chunks : List Text) (i : ℕ) → get_elem? chunks i ≡ none → length chunks ≤ i
get_elem?-none [] i e = omega arith
get_elem?-none (x ∷ chunks) zero e = cc
get_elem?-none (x ∷ chunks) (suc i) e = omega (arith, get_elem?-none chunks i e)

module _ (d : Document) (chunks : List Text) (fits : length chunks ≤ 2 ^ 31) (old : List Chunk)
    (older : All
      (IsOlder d.file.drive_file_id d.content_version d.ingested_at (length (loaded d chunks)))
      old)
    (n : ℕ) where
  abbrev pub appended : List Chunk
  appended = repeated n (loaded d chunks)

  appended-New : All (New d) appended
  appended-New = repeated-All (New d) n (loaded d chunks) (loaded-New d chunks fits)

  latest : latest_version (old ++ appended) d.file.drive_file_id ≡ some d.content_version
  latest =
      let (c, more, e) = repeated-cons n (loaded d chunks) (loaded-cons d chunks) in
      ap (λ x. latest_version (old ++ x) d.file.drive_file_id) e
      ∙ latest_version-IsNew d.file.drive_file_id d.content_version d.ingested_at
          (length (loaded d chunks)) old more c older (subst (All (New d)) e appended-New)

  -- The row that the document has at an index.
  at_index : ℕ → Option Chunk
  at_index index =
      later (deduplicated old d.file.drive_file_id d.content_version index)
        (deduplicated (loaded d chunks) d.file.drive_file_id d.content_version index)

  current-own :
      (index : ℕ)
      → current (old ++ appended) d.file.drive_file_id index ≡ not_deleted (at_index index)
  unfolding current at_index
  current-own index =
      ap (of_version (old ++ appended) d.file.drive_file_id index) latest
      ∙ ap not_deleted (
          deduplicated-append old appended d.file.drive_file_id d.content_version index
          ∙ ap (later (deduplicated old d.file.drive_file_id d.content_version index)) (
              deduplicated-repeated n (loaded d chunks) d.file.drive_file_id d.content_version
                index))

  at_index-new :
      (index : ℕ) (new : Chunk)
      → New d new
      → deduplicated (loaded d chunks) d.file.drive_file_id d.content_version index ≡ some new
      → at_index index ≡ some new
  unfolding at_index
  at_index-new index new v e =
      ap (later (deduplicated old d.file.drive_file_id d.content_version index)) e
      ∙ later-new d.ingested_at _ new
          (deduplicated-IsEarly d.file.drive_file_id d.content_version d.ingested_at
            (length (loaded d chunks)) old index older)
          v.same_time

  at_index-none :
      (index : ℕ)
      → length (loaded d chunks) ≤ index
      → deduplicated (loaded d chunks) d.file.drive_file_id d.content_version index ≡ none
      → at_index index ≡ none
  unfolding at_index
  at_index-none index h e =
      ap (later (deduplicated old d.file.drive_file_id d.content_version index)) e
      ∙ later-none (deduplicated old d.file.drive_file_id d.content_version index)
      ∙ deduplicated-IsOlder d.file.drive_file_id d.content_version d.ingested_at
          (length (loaded d chunks)) old index h older

  others : (id : Text) → text_eq d.file.drive_file_id id ≡ false → All (IsOther id) appended
  others id other = All-map (λ c (v : New d c). rw v.same_file other) appended appended-New

not_deleted-there : (c : Chunk) → c.is_deleted ≡ some false → not_deleted (some c) ≡ some c
not_deleted-there c e = ap (λ b. if or_false b then none else some c) e

not_deleted-gone : (c : Chunk) → c.is_deleted ≡ some true → not_deleted (some c) ≡ none
not_deleted-gone c e = ap (λ b. if or_false b then none else some c) e

tombstone-at :
    (d : Document) (index : ℕ)
    → deduplicated (tombstone d ∷ []) d.file.drive_file_id d.content_version index
      ≡ (if 0 == index then some (tombstone d) else none)
unfolding deduplicated
tombstone-at d index =
    let n = tombstone-New d in
    rw
      (
        n.same_file,
        n.same_version,
        (tombstone-deleted d).0,
        text_eq_refl d.file.drive_file_id,
        text_eq_refl d.content_version,
      )
      refl

loaded-at :
    (d : Document) (chunk : Text) (chunks : List Text) (index : ℕ)
    → length (chunk ∷ chunks) ≤ 2 ^ 31
    → deduplicated (loaded d (chunk ∷ chunks)) d.file.drive_file_id d.content_version index
      ≡ Option.map (shown_chunk d index) (get_elem? (chunk ∷ chunks) index)
loaded-at d chunk chunks index fits =
    ap (λ x. deduplicated x d.file.drive_file_id d.content_version index)
      (loaded_some d chunk chunks)
    ∙ rows_from-at d 0 (chunk ∷ chunks) index index (omega (arith, fits)) (omega arith)

none-at :
    (d : Document) (index : ℕ)
    → deduplicated (loaded d []) d.file.drive_file_id d.content_version index
      ≡ (if 0 == index then some (tombstone d) else none)
none-at d index =
    ap (λ x. deduplicated x d.file.drive_file_id d.content_version index) (loaded_none d)
    ∙ tombstone-at d index

length-loaded :
    (d : Document) (chunk : Text) (chunks : List Text)
    → length (loaded d (chunk ∷ chunks)) ≡ length (chunk ∷ chunks)
length-loaded d chunk chunks =
    ap length (loaded_some d chunk chunks) ∙ length-rows_from d 0 (chunk ∷ chunks)

at_index-shown :
    (d : Document) (chunks : List Text) (fits : length chunks ≤ 2 ^ 31) (old : List Chunk)
    (older : All
      (IsOlder d.file.drive_file_id d.content_version d.ingested_at (length (loaded d chunks)))
      old)
    (n : ℕ) (index : ℕ)
    → not_deleted (at_index d chunks fits old older n index)
      ≡ Option.map (shown_chunk d index) (get_elem? chunks index)
unfolding at_index
at_index-shown d [] fits old older n zero =
    ap not_deleted
      (at_index-new d [] fits old older n 0 (tombstone d) (tombstone-New d) (none-at d 0))
    ∙ not_deleted-gone (tombstone d) (tombstone-deleted d).1
at_index-shown d [] fits old older n (suc i) = ap not_deleted (
    at_index-none d [] fits old older n (suc i) (omega (arith, ap length (loaded_none d)))
      (none-at d (suc i) ∙ ground arith))
at_index-shown d (chunk ∷ chunks) fits old older n index =
    shown (get_elem? (chunk ∷ chunks) index) refl (loaded-at d chunk chunks index fits)
  where
    shown :
        (o : Option Text)
        → get_elem? (chunk ∷ chunks) index ≡ o
        → deduplicated (loaded d (chunk ∷ chunks)) d.file.drive_file_id d.content_version index
          ≡ Option.map (shown_chunk d index) (get_elem? (chunk ∷ chunks) index)
        → not_deleted (at_index d (chunk ∷ chunks) fits old older n index)
          ≡ Option.map (shown_chunk d index) (get_elem? (chunk ∷ chunks) index)
    shown none e h =
        ap not_deleted (
          at_index-none d (chunk ∷ chunks) fits old older n index
            (omega (arith, length-loaded d chunk chunks, get_elem?-none (chunk ∷ chunks) index e))
            (h ∙ ap (Option.map (shown_chunk d index)) e))
        ∙ sym (ap (Option.map (shown_chunk d index)) e)
    shown (some c) e h =
        let v =
          shown_chunk-IsShown d index c
            (omega (arith, fits, get_elem?-bounds (chunk ∷ chunks) index e)) in
        ap not_deleted (
          at_index-new d (chunk ∷ chunks) fits old older n index (shown_chunk d index c) v.new
            (h ∙ ap (Option.map (shown_chunk d index)) e))
        ∙ not_deleted-there (shown_chunk d index c) v.there
        ∙ sym (ap (Option.map (shown_chunk d index)) e)

-- The rows of a document, appended once or more often behind rows of its file that are older and
-- none of which has its version and an index that is not loaded again: the view shows of the file
-- the rows of the document's chunks, one for each chunk, and nothing else, and of each other file
-- what it showed before.
pub reload-Shown :
    (d : Document) (chunks : List Text) (old : List Chunk) (n : ℕ) (id : Text) (index : ℕ)
    → length chunks ≤ 2 ^ 31
    → All
        (IsOlder d.file.drive_file_id d.content_version d.ingested_at (length (loaded d chunks)))
        old
    → current (old ++ repeated n (loaded d chunks)) id index ≡ (
        if text_eq d.file.drive_file_id id
        then Option.map (shown_chunk d index) (get_elem? chunks index)
        else current old id index)
reload-Shown d chunks old n id index fits older =
    elim (Bool-cases (text_eq d.file.drive_file_id id)) [
      | inl own ↦ rw own (
          subst
            (λ x.
              current (old ++ repeated n (loaded d chunks)) x index
              ≡ Option.map (shown_chunk d index) (get_elem? chunks index))
            ((text_eq_iff d.file.drive_file_id id).0 own)
            (current-own d chunks fits old older n index
              ∙ at_index-shown d chunks fits old older n index))
      | inr other ↦ rw other (
          current-others old (repeated n (loaded d chunks)) id index
            (others d chunks fits old older n id other))
    ]
