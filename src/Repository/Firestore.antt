-- ===== src/Repository/Firestore.antt =====
-- internal/repository/firestore_repository.go: the backend on Firestore. The collection `files` is
-- the list of its documents, each behind its document ID. The errors of the service are arguments.
pub mod Docs
use go_drive_etl.Common.{
  ℕ, zero, suc, refl, none, some, true, false, [], ◌∷◌, Text, Bool, Error, List, Option, Result,
  if◌then◌else◌, err, not, text_eq, is_empty, ok, ◌&&◌, ◌++◌,
}
use go_drive_etl.Domain.{File, SyncStatus, status_pending, status_failed}
use go_drive_etl.Repository.{View}

pub record FileDoc : Type 0 where
  pub drive_file_id : Text
  pub path : Text
  pub checksum : Text
  pub mime_type : Text
  pub sync_status : Text
  pub updated_at : ℕ

abbrev pub Collection : Type 0
Collection = List (Text × FileDoc)

-- `doc.Ref.ID` and the fields of the document, as a `domain.File`.
unfoldable pub file_of_doc : Text → FileDoc → File
file_of_doc id d = record {
  drive_file_id = id;
  path = d.path;
  checksum = d.checksum;
  mime_type = d.mime_type;
  sync_status = d.sync_status;
  updated_at = d.updated_at;
}

unfoldable pub find_doc : Collection → Text → Option FileDoc
find_doc [] id = none
find_doc ((key, d) ∷ docs) id = if text_eq key id then some d else find_doc docs id

-- `tx.Set(docRef, d)`.
pub set_doc : Text → FileDoc → Collection → Collection
set_doc id d [] = (id, d) ∷ []
set_doc id d ((key, old) ∷ docs) =
    let rest = set_doc id d docs in if text_eq key id then (key, d) ∷ docs else (key, old) ∷ rest

-- The server fills in `updated_at`.
unfoldable pub new_file_doc : ℕ → File → FileDoc
new_file_doc now f = record {
  drive_file_id = f.drive_file_id;
  path = f.path;
  checksum = f.checksum;
  mime_type = f.mime_type;
  sync_status = status_pending;
  updated_at = now;
}

-- The test under which the transaction writes nothing.
pub is_unchanged : File → FileDoc → Bool
is_unchanged f existing =
    not (is_empty f.checksum)
    && text_eq existing.checksum f.checksum
    && not (text_eq existing.sync_status status_failed)
    && text_eq existing.path f.path

-- What can go wrong in a transaction besides a missing document.
pub record Faults : Type 0 where
  pub get : Option Error
  pub data_to : FileDoc → Option Error
  pub commit : Option Error

abbrev pub no_faults : Faults
no_faults = record { get = none; data_to = λ d. none; commit = none }

-- From `doc.DataTo(&existing)` on.
pub write_over : ℕ → File → FileDoc → Option Error → Result (Option FileDoc)
write_over now f existing (some e) = err e
write_over now f existing none =
    if is_unchanged f existing then ok none else ok (some (new_file_doc now f))

-- The function that `RunTransaction` runs, with the error of `tx.Get`, if there is one, and the
-- document, if it was found. It returns the document to set, if one is to be set.
pub transaction : Faults → ℕ → File → Option Error → Option FileDoc → Result (Option FileDoc)
unfolding write_over
transaction faults now f (some e) found = err e
transaction faults now f none none = ok (some (new_file_doc now f))
transaction faults now f none (some existing) = write_over now f existing (faults.data_to existing)

-- The writes take effect together when the transaction commits, or not at all.
pub commit : Option Error → Text → Result (Option FileDoc) → Collection → Option Error × Collection
commit fault id (err e) docs = (some e, docs)
commit (some e) id (ok writes) docs = (some e, docs)
commit none id (ok none) docs = (none, docs)
commit none id (ok (some d)) docs = (none, set_doc id d docs)

unfoldable pub upsert : Faults → ℕ → File → Collection → Option Error × Collection
unfolding transaction commit
upsert faults now f docs =
    commit faults.commit f.drive_file_id
      (transaction faults now f faults.get (find_doc docs f.drive_file_id)) docs

-- `Update` of a document; the service refuses one that is missing with the error `not_found`.
pub update_found :
    Error → ℕ → Text → SyncStatus → Option FileDoc → Collection → Option Error × Collection
update_found not_found now id status none docs = (some not_found, docs)
update_found not_found now id status (some d) docs =
    (none, set_doc id (record d { sync_status = status; updated_at = now }) docs)

unfoldable pub update_status :
    Option Error → Error → ℕ → Text → SyncStatus → Collection → Option Error × Collection
unfolding update_found
update_status (some e) not_found now id status docs = (some e, docs)
update_status none not_found now id status docs =
    update_found not_found now id status (find_doc docs id) docs

-- `Where("sync_status", "==", "pending")`.
unfoldable pub where_pending : Collection → Collection
where_pending [] = []
where_pending ((id, d) ∷ docs) =
    let rest = where_pending docs in
    if text_eq d.sync_status status_pending then (id, d) ∷ rest else rest

-- What can go wrong while the query is read: fetching a document, decoding it, and fetching the
-- end.
pub record ReadFaults : Type 0 where
  pub next : Text → Option Error
  pub data_to : FileDoc → Option Error
  pub last : Option Error

abbrev pub first_error : Option Error → Option Error → Option Error
first_error (some e) f = some e
first_error none f = f

-- The loop of `ListPending`.
unfoldable pub read_docs : ReadFaults → Collection → List File → Result (List File)
read_docs faults [] files = elim faults.last [ some e ↦ err e | none ↦ ok files ]
read_docs faults ((id, d) ∷ docs) files =
    let rest = read_docs faults docs (files ++ file_of_doc id d ∷ []) in
    elim (first_error (faults.next id) (faults.data_to d)) [ some e ↦ err e | none ↦ rest ]

unfoldable pub list_pending : ReadFaults → Collection → Result (List File)
unfolding where_pending read_docs
list_pending faults docs = read_docs faults (where_pending docs) []
