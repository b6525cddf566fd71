-- ===== src/Repository.antt =====
-- internal/repository: the state store of the pipeline and its two backends. This file holds what
-- both are held against: a view of the store as a function from file IDs, and what a call does to
-- the entry of its file.
pub mod Postgres
pub mod Firestore
pub mod Agreement
pub mod Factory
mod Tests
use go_drive_etl.Common.{
  Error, List, Result, ok, err, ℕ, zero, suc, refl, none, some, true, false, [], ◌∷◌, Text, Bool,
  Option, if◌then◌else◌, not, is_empty, text_eq, ◌&&◌,
}
use go_drive_etl.Domain.{File, SyncStatus, status_pending, status_failed}

-- What a store shows of its files.
abbrev pub View : Type 0
View = Text → Option File

-- A file as discovery queues it.
unfoldable pub fresh : ℕ → File → File
fresh now f = record f { sync_status = status_pending; updated_at = now }

-- The condition under which a file that the store has is left as it is.
unfoldable pub is_settled : File → File → Bool
is_settled old f =
    not (is_empty f.checksum)
    && text_eq old.checksum f.checksum
    && not (text_eq old.sync_status status_failed)
    && text_eq old.path f.path

-- The entry of a file after discovery.
unfoldable pub queued : ℕ → File → Option File → File
queued now f none = fresh now f
queued now f (some old) = if is_settled old f then old else fresh now f

-- The entry of a file after its status was set. There may be none.
unfoldable pub status_set : ℕ → SyncStatus → Option File → Option File
status_set now status none = none
status_set now status (some old) = some (record old { sync_status = status; updated_at = now })

unfoldable pub only_pending : Option File → Option File
only_pending none = none
only_pending (some f) = if text_eq f.sync_status status_pending then some f else none

-- The files, or the error, if there is one.
abbrev pub result_of : Option Error → List File → Result (List File)
result_of none files = ok files
result_of (some e) files = err e

-- The first of two errors.
abbrev pub or_else : Option Error → Option Error → Option Error
or_else (some e) next = some e
or_else none next = next
