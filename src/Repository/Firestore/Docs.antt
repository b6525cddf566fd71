-- ===== src/Repository/Firestore/Docs.antt =====
-- The calls of internal/repository/firestore_repository.go, as a reader of the collection sees
-- them.
use go_drive_etl.Common.{
  ℕ, refl, none, some, [], ◌∷◌, Text, arith, inl, inr, Option, ◌≡◌, if◌then◌else◌, text_eq,
  Bool-cases, text_eq_iff, List, Error, ◌++◌, Option-cases, append-nil, append_assoc, ◌∙◌,
}
use go_drive_etl.Domain.{File, SyncStatus}
use go_drive_etl.Repository.{or_else, result_of, View, fresh, is_settled, queued, status_set}
use go_drive_etl.Repository.Firestore.{
  FileDoc, file_of_doc, find_doc, Collection, is_unchanged, new_file_doc, set_doc, transaction,
  commit, no_faults, list_pending, read_docs, update_found, update_status, upsert, ReadFaults,
  where_pending, first_error,
}

abbrev pub shown : Text → Option FileDoc → Option File
shown id none = none
shown id (some d) = some (file_of_doc id d)

-- The collection as the files that it holds.
unfoldable pub view : Collection → View
view docs id = shown id (find_doc docs id)

find_doc-set_doc :
    (key : Text) (d : FileDoc) (docs : Collection) (id : Text)
    → find_doc (set_doc key d docs) id ≡ (if text_eq key id then some d else find_doc docs id)
unfolding find_doc set_doc
find_doc-set_doc key d [] id = refl
find_doc-set_doc key d ((k, old) ∷ docs) id =
    ground (
      arith,
      find_doc-set_doc key d docs id,
      text_eq_iff key id,
      text_eq_iff k key,
      text_eq_iff k id,
    )

view-set_doc :
    (key : Text) (d : FileDoc) (docs : Collection) (id : Text)
    → view (set_doc key d docs) id
      ≡ (if text_eq key id then some (file_of_doc key d) else view docs id)
unfolding view
view-set_doc key d docs id = rw find_doc-set_doc (ground (arith, text_eq_iff key id))

file_of_doc-new :
    (now : ℕ) (f : File) → file_of_doc f.drive_file_id (new_file_doc now f) ≡ fresh now f
unfolding file_of_doc new_file_doc fresh
file_of_doc-new now f = refl

is_unchanged_lem :
    (id : Text) (f : File) (d : FileDoc) → is_unchanged f d ≡ is_settled (file_of_doc id d) f
unfolding is_unchanged is_settled file_of_doc
is_unchanged_lem id f d = refl

view_at :
    (docs : Collection) (key id : Text) (d : FileDoc)
    → find_doc docs key ≡ some d
    → view docs id ≡ (if text_eq key id then some (file_of_doc key d) else view docs id)
unfolding view
view_at docs key id d e = ground (arith, text_eq_iff key id)

upsert-view_at :
    (now : ℕ) (f : File) (docs : Collection) (o : Option FileDoc)
    → find_doc docs f.drive_file_id ≡ o
    → (id : Text)
    → view (commit none f.drive_file_id (transaction no_faults now f none o) docs).1 id ≡ (
        if text_eq f.drive_file_id id
        then some (queued now f (shown f.drive_file_id o))
        else view docs id)
unfolding transaction commit queued
upsert-view_at now f docs none e id = rw (view-set_doc, file_of_doc-new)
upsert-view_at now f docs (some d) e id = elim (Bool-cases (is_unchanged f d)) [
  | inl same ↦
      rw (← is_unchanged_lem f.drive_file_id f d, same) (view_at docs f.drive_file_id id d e)
  | inr other ↦
      rw (← is_unchanged_lem f.drive_file_id f d, other, view-set_doc, file_of_doc-new) refl
]

no_error_at :
    (now : ℕ) (f : File) (docs : Collection) (o : Option FileDoc)
    → (commit none f.drive_file_id (transaction no_faults now f none o) docs).0 ≡ none
unfolding transaction commit
no_error_at now f docs none = refl
no_error_at now f docs (some d) = ground arith

-- A call of `Upsert` with no fault.
pub upsert-view :
    (now : ℕ) (f : File) (docs : Collection)
    → ((upsert no_faults now f docs).0 ≡ none)
      × ((id : Text)
          → view (upsert no_faults now f docs).1 id ≡ (
              if text_eq f.drive_file_id id
              then some (queued now f (view docs f.drive_file_id))
              else view docs id))
unfolding upsert view
upsert-view now f docs =
    let o = find_doc docs f.drive_file_id in
    (no_error_at now f docs o, upsert-view_at now f docs o refl)

-- A call of `UpdateStatus` with no fault.
update_found-view :
    (not_found : Error) (now : ℕ) (key : Text) (status : SyncStatus) (docs : Collection)
    (o : Option FileDoc)
    → find_doc docs key ≡ o
    → (id : Text)
    → view (update_found not_found now key status o docs).1 id
      ≡ (if text_eq key id then status_set now status (view docs id) else view docs id)
unfolding update_found status_set
update_found-view not_found now key status docs none e id =
    unfold view in ground (arith, text_eq_iff key id)
update_found-view not_found now key status docs (some d) e id =
    rw view-set_doc (unfold view file_of_doc in ground (arith, text_eq_iff key id))

pub update_status-view :
    (not_found : Error) (now : ℕ) (key : Text) (status : SyncStatus) (docs : Collection) (id : Text)
    → view (update_status none not_found now key status docs).1 id
      ≡ (if text_eq key id then status_set now status (view docs id) else view docs id)
unfolding update_status
update_status-view not_found now key status docs id =
    update_found-view not_found now key status docs (find_doc docs key) refl id

-- The service refuses a document that is missing, and nothing changes.
pub update_status_missing_doc :
    (not_found : Error) (now : ℕ) (key : Text) (status : SyncStatus) (docs : Collection)
    → view docs key ≡ none
    → update_status none not_found now key status docs ≡ (some not_found, docs)
unfolding update_status view
update_status_missing_doc not_found now key status docs gone =
    elim (Option-cases (find_doc docs key)) [ inl e ↦ rw e | inr (d, e) ↦ absurd (ground arith) ]

-- The files of the documents, in the order of the collection.
pub files_of : Collection → List File
files_of [] = []
files_of ((id, d) ∷ docs) = file_of_doc id d ∷ files_of docs

-- The first of the errors that reading the documents meets, and then the one at their end.
abbrev pub first_read : ReadFaults → Collection → Option Error
first_read faults [] = faults.last
first_read faults ((id, d) ∷ docs) =
    or_else (first_error (faults.next id) (faults.data_to d)) (first_read faults docs)

read_docs_lem :
    (faults : ReadFaults) (docs : Collection) (acc : List File)
    → read_docs faults docs acc ≡ result_of (first_read faults docs) (acc ++ files_of docs)
unfolding read_docs files_of
read_docs_lem faults [] acc = elim (Option-cases faults.last) [
  | inl e ↦ rw (e, append-nil)
  | inr (x, e) ↦ rw (read_docs, e)
]
read_docs_lem faults ((id, d) ∷ docs) acc =
    elim (Option-cases (first_error (faults.next id) (faults.data_to d))) [
      | inl e ↦
          rw (read_docs, e)
            (read_docs_lem faults docs (acc ++ file_of_doc id d ∷ []) ∙ rw append_assoc)
      | inr (x, e) ↦ rw (read_docs, e)
    ]

-- The call lists the pending documents, each under its document ID, all of them and in the order of
-- the collection, if the iterator and the decoding of these documents raise no error, and returns
-- the first error and no documents otherwise.
pub list_pending-docs :
    (faults : ReadFaults) (docs : Collection)
    → list_pending faults docs
      ≡ result_of (first_read faults (where_pending docs)) (files_of (where_pending docs))
unfolding list_pending
list_pending-docs faults docs = read_docs_lem faults (where_pending docs) []

-- And accepts one that is there.
pub update_status_present :
    (not_found : Error) (now : ℕ) (key : Text) (status : SyncStatus) (docs : Collection) {f : File}
    → view docs key ≡ some f
    → (update_status none not_found now key status docs).0 ≡ none
unfolding update_status view
update_status_present not_found now key status docs h = elim (Option-cases (find_doc docs key)) [
  | inl e ↦ absurd (ground arith)
  | inr (d, e) ↦ rw e
]
