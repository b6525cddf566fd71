-- ===== src/Repository/Postgres/Rows.antt =====
-- The statements of internal/repository/file_repository.go, as a reader of the table sees them.
use go_drive_etl.Common.{
  ℕ, refl, none, some, [], ◌∷◌, Text, arith, inl, inr, ◌≡◌, if◌then◌else◌, not, text_eq_iff,
  text_eq, Bool-cases, Option, ◌∙◌, Error,
}
use go_drive_etl.Domain.{File, SyncStatus}
use go_drive_etl.Repository.{fresh, is_settled, queued, status_set, only_pending}
use go_drive_etl.Repository.Postgres.{
  find, Table, needs_update, upsert_rows, excluded, select_pending, update_rows, updated,
  update_status, upsert,
}

-- Each ID stands in one row at most: `drive_file_id` is UNIQUE.
abbrev pub IsKeyed : Table → Type 0
IsKeyed [] = Unit
IsKeyed (row ∷ rows) = (find rows row.drive_file_id ≡ none) × IsKeyed rows

-- Each file stands under its own ID.
pub find-drive_file_id :
    (t : Table) (id : Text) {f : File} → find t id ≡ some f → f.drive_file_id ≡ id
unfolding find
find-drive_file_id [] id h = cc
find-drive_file_id (row ∷ rows) id h = elim (Bool-cases (text_eq row.drive_file_id id)) [
  | inl same ↦ ground (arith, text_eq_iff row.drive_file_id id)
  | inr other ↦ find-drive_file_id rows id (rw other at h)
]

-- The WHERE clause of the statement is the test of Firestore, negated.
needs_update_lem : (row f : File) → needs_update row f ≡ not (is_settled row f)
unfolding needs_update is_settled
needs_update_lem row f = ground (arith, text_eq_iff row.checksum f.checksum)

excluded-fresh : (now : ℕ) (f : File) → excluded now f ≡ fresh now f
unfolding excluded fresh
excluded-fresh now f = refl

updated-fresh :
    (now : ℕ) (row f : File) → row.drive_file_id ≡ f.drive_file_id → updated now row f ≡ fresh now f
unfolding updated fresh
updated-fresh now row f h = ground arith

-- The row that the statement leaves where it meets the ID is the queued one.
row-queued :
    (now : ℕ) (row f : File)
    → row.drive_file_id ≡ f.drive_file_id
    → (if needs_update row f then updated now row f else row) ≡ queued now f (some row)
unfolding queued
row-queued now row f h = ground (arith, needs_update_lem row f, updated-fresh now row f h)

drive_file_id-fresh : (now : ℕ) (f : File) → (fresh now f).drive_file_id ≡ f.drive_file_id
unfolding fresh
drive_file_id-fresh now f = refl

drive_file_id-queued :
    (now : ℕ) (f : File) (old : File)
    → old.drive_file_id ≡ f.drive_file_id
    → (queued now f (some old)).drive_file_id ≡ f.drive_file_id
unfolding queued fresh
drive_file_id-queued now f old h = ground arith

pub find-upsert_rows :
    (now : ℕ) (f : File) (t : Table) (id : Text)
    → find (upsert_rows now f t) id ≡ (
        if text_eq f.drive_file_id id
        then some (queued now f (find t f.drive_file_id))
        else find t id)
unfolding find upsert_rows
find-upsert_rows now f [] id =
    unfold queued in rw excluded-fresh (ground (arith, drive_file_id-fresh now f))
find-upsert_rows now f (row ∷ rows) id =
    elim (Bool-cases (text_eq row.drive_file_id f.drive_file_id)) [
      | inl same ↦
          let e = (text_eq_iff row.drive_file_id f.drive_file_id).0 same in
          rw (same, row-queued now row f e) (ground (arith, drive_file_id-queued now f row e, e))
      | inr other ↦ rw other (
          ground (
            arith,
            find-upsert_rows now f rows id,
            text_eq_iff row.drive_file_id id,
            text_eq_iff f.drive_file_id id,
            text_eq_iff row.drive_file_id f.drive_file_id,
          ))
    ]

pub find-update_rows :
    (now : ℕ) (key : Text) (status : SyncStatus) (t : Table) (id : Text)
    → IsKeyed t
    → find (update_rows now key status t) id
      ≡ (if text_eq key id then status_set now status (find t id) else find t id)
unfolding find update_rows status_set
find-update_rows now key status [] id v = ground arith
find-update_rows now key status (row ∷ rows) id (new, v) = ground (
  arith,
  find-update_rows now key status rows id v,
  text_eq_iff row.drive_file_id id,
  text_eq_iff row.drive_file_id key,
  text_eq_iff key id,
)

pub find-select_pending :
    (t : Table) (id : Text) → IsKeyed t → find (select_pending t) id ≡ only_pending (find t id)
unfolding find select_pending only_pending
find-select_pending [] id v = refl
find-select_pending (row ∷ rows) id (new, v) =
    ground (arith, find-select_pending rows id v, text_eq_iff row.drive_file_id id)

-- The statements keep the IDs unique.
upsert_rows-IsKeyed : (now : ℕ) (f : File) (t : Table) → IsKeyed t → IsKeyed (upsert_rows now f t)
unfolding upsert_rows
upsert_rows-IsKeyed now f [] v = unfold find in (refl, tt)
upsert_rows-IsKeyed now f (row ∷ rows) (new, v) =
    elim (Bool-cases (text_eq row.drive_file_id f.drive_file_id)) [
      | inl same ↦
          let e = (text_eq_iff row.drive_file_id f.drive_file_id).0 same in
          rw (same, row-queued now row f e, drive_file_id-queued now f row e) (rw e at new, v)
      | inr other ↦ rw other (
        find-upsert_rows now f rows row.drive_file_id
            ∙ ground (
              arith,
              text_eq_iff row.drive_file_id f.drive_file_id,
              text_eq_iff f.drive_file_id row.drive_file_id,
            ),
        upsert_rows-IsKeyed now f rows v,
      )
    ]

update_rows-IsKeyed :
    (now : ℕ) (id : Text) (status : SyncStatus) (t : Table)
    → IsKeyed t
    → IsKeyed (update_rows now id status t)
unfolding update_rows
update_rows-IsKeyed now id status [] v = tt
update_rows-IsKeyed now id status (row ∷ rows) (new, v) =
    let kept = find-update_rows now id status rows row.drive_file_id v in
    (same_key kept, update_rows-IsKeyed now id status rows v)
  where
    same_key :
        find (update_rows now id status rows) row.drive_file_id ≡ (
          if text_eq id row.drive_file_id
          then status_set now status (find rows row.drive_file_id)
          else find rows row.drive_file_id)
        → find
            (update_rows now id status rows)
            (if text_eq row.drive_file_id id
              then record row { sync_status = status; updated_at = now }
              else row).drive_file_id
          ≡ none
    same_key h = unfold status_set in ground (arith, new)

-- `Upsert` keeps the IDs of the rows unique, whether or not it fails.
pub upsert-IsKeyed :
    (fault : Option Error) (now : ℕ) (f : File) (t : Table)
    → IsKeyed t
    → IsKeyed (upsert fault now f t).1
unfolding upsert
upsert-IsKeyed none now f t v = upsert_rows-IsKeyed now f t v
upsert-IsKeyed (some e) now f t v = v

-- `UpdateStatus` keeps the IDs of the rows unique, whether or not it fails.
pub update_status-IsKeyed :
    (fault : Option Error) (now : ℕ) (id : Text) (status : SyncStatus) (t : Table)
    → IsKeyed t
    → IsKeyed (update_status fault now id status t).1
unfolding update_status
update_status-IsKeyed none now id status t v = update_rows-IsKeyed now id status t v
update_status-IsKeyed (some e) now id status t v = v
