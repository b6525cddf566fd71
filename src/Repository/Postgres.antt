-- ===== src/Repository/Postgres.antt =====
-- internal/repository/file_repository.go: the backend on PostgreSQL. The table `files` is the list
-- of its rows. A statement that fails changes nothing; whether it fails is an argument.
pub mod Rows
pub mod Pending
use go_drive_etl.Common.{
  ℕ, zero, suc, refl, none, some, true, false, [], ◌∷◌, Text, Bool, List, Option, if◌then◌else◌,
  Error, text_eq, is_empty, Result, ◌||◌, err, not, ok, ◌++◌,
}
use go_drive_etl.Domain.{File, SyncStatus, status_pending, status_failed}
use go_drive_etl.Repository.{View}

abbrev pub Table : Type 0
Table = List File

-- `SELECT … WHERE drive_file_id = id`, as the view of the table.
unfoldable pub find : Table → View
find [] id = none
find (row ∷ rows) id = if text_eq row.drive_file_id id then some row else find rows id

-- The row that the INSERT makes: `VALUES ($1, $2, $3, $4, 'pending', NOW())`.
pub excluded : ℕ → File → File
excluded now f = record {
  drive_file_id = f.drive_file_id;
  path = f.path;
  checksum = f.checksum;
  mime_type = f.mime_type;
  sync_status = status_pending;
  updated_at = now;
}

-- The WHERE clause of DO UPDATE.
pub needs_update : File → File → Bool
needs_update row f =
    is_empty row.checksum
    || is_empty f.checksum
    || not (text_eq row.checksum f.checksum)
    || text_eq row.sync_status status_failed
    || not (text_eq row.path f.path)

-- DO UPDATE SET.
pub updated : ℕ → File → File → File
updated now row f = record row {
  path = f.path;
  checksum = f.checksum;
  mime_type = f.mime_type;
  sync_status = status_pending;
  updated_at = now;
}

-- INSERT … ON CONFLICT (drive_file_id) DO UPDATE … WHERE ….
pub upsert_rows : ℕ → File → Table → Table
upsert_rows now f [] = excluded now f ∷ []
upsert_rows now f (row ∷ rows) =
    let rest = upsert_rows now f rows in
    if text_eq row.drive_file_id f.drive_file_id
    then (if needs_update row f then updated now row f else row) ∷ rows
    else row ∷ rest

-- UPDATE files SET sync_status = $1, updated_at = NOW() WHERE drive_file_id = $2.
pub update_rows : ℕ → Text → SyncStatus → Table → Table
update_rows now id status [] = []
update_rows now id status (row ∷ rows) =
    (if text_eq row.drive_file_id id
      then record row { sync_status = status; updated_at = now }
      else row)
    ∷ update_rows now id status rows

-- SELECT … FROM files WHERE sync_status = 'pending'.
unfoldable pub select_pending : Table → Table
select_pending [] = []
select_pending (row ∷ rows) =
    let rest = select_pending rows in
    if text_eq row.sync_status status_pending then row ∷ rest else rest

-- `_, err := r.db.Exec(…)`; the first argument is the error of the statement, if there is one.
abbrev exec : Option Error → (Table → Table) → Table → Option Error × Table
exec none statement t = (none, statement t)
exec (some e) statement t = (some e, t)

unfoldable pub upsert : Option Error → ℕ → File → Table → Option Error × Table
unfolding upsert_rows
upsert fault now f t = exec fault (upsert_rows now f) t

unfoldable pub update_status : Option Error → ℕ → Text → SyncStatus → Table → Option Error × Table
unfolding update_rows
update_status fault now id status t = exec fault (update_rows now id status) t

-- `for rows.Next() { … }`; `scan` is the error of reading a row, if there is one.
unfoldable pub scan_rows : (File → Option Error) → Table → List File → Result (List File)
scan_rows scan [] files = ok files
scan_rows scan (row ∷ rows) files =
    let rest = scan_rows scan rows (files ++ row ∷ []) in
    elim (scan row) [ some e ↦ err e | none ↦ rest ]

abbrev after_rows : Option Error → Result (List File) → Result (List File)
after_rows rows_err (err e) = err e
after_rows none (ok files) = ok files
after_rows (some e) (ok files) = err e

-- `ListPending`; the faults are those of `Query`, of `Scan` and of `rows.Err()`. The statement
-- has no ORDER BY: the order in which the server gives the rows is an argument.
unfoldable pub list_pending :
    (Table → Table)
    → Option Error
    → (File → Option Error)
    → Option Error
    → Table
    → Result (List File)
unfolding select_pending scan_rows
list_pending arrange none scan rows_err t =
    after_rows rows_err (scan_rows scan (arrange (select_pending t)) [])
list_pending arrange (some e) scan rows_err t = err e
