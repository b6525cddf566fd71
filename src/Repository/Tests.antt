-- ===== src/Repository/Tests.antt =====
-- The theorems of the two backends at small stores.
use go_drive_etl.Common.{
  Bool-cases, inl, inr, text_eq_iff, sym, refl, none, some, ◌≡◌, [], ◌∷◌, codes, Text, Error,
  message, text_eq, if◌then◌else◌, ok, List, ◌++◌, All,
}
use go_drive_etl.Domain.{File, status_done, status_failed, status_pending}
use go_drive_etl.Repository.{or_else, result_of, queued, fresh, status_set}
use go_drive_etl.Repository.Postgres
use go_drive_etl.Repository.Postgres.{Table, find, select_pending, scan_rows}
use go_drive_etl.Repository.Postgres.Rows.{IsKeyed}
use go_drive_etl.Repository.Postgres.Pending.{IsPending, first_scan, list_pending-rows}
use mathlib.Core.List.Permᴰ
use mathlib.Core.List.{Permᴰ, reverse}
use go_drive_etl.Repository.Firestore
use go_drive_etl.Repository.Firestore.{
  Collection, ReadFaults, no_faults, find_doc, file_of_doc, new_file_doc, where_pending, read_docs,
}
use go_drive_etl.Repository.Firestore.Docs.{view}
use go_drive_etl.Repository.Agreement.{
  Agrees, upsert-Agrees, update_status-Agrees, update_status_missing,
}

abbrev report : File
report = record {
  drive_file_id = codes "id-1";
  path = codes "report.md";
  checksum = codes "c1";
  mime_type = codes "text/markdown";
  sync_status = status_failed;
  updated_at = 3;
}

abbrev changed_report : File
changed_report = record report { checksum = codes "c2"; sync_status = [] }

abbrev rows : Table
rows = report ∷ []

abbrev docs : Collection
docs =
    (
      codes "id-1",
      record {
        drive_file_id = codes "id-1";
        path = codes "report.md";
        checksum = codes "c1";
        mime_type = codes "text/markdown";
        sync_status = status_failed;
        updated_at = 3;
      },
    )
    ∷ []

rows-IsKeyed : IsKeyed rows
unfolding find
rows-IsKeyed = (refl, tt)

rows-Agrees : Agrees rows docs
unfolding find view find_doc file_of_doc
rows-Agrees id = elim (Bool-cases (text_eq (codes "id-1") id)) [
  | inl same ↦ let e = (text_eq_iff (codes "id-1") id).0 same in rw (same, sym e)
  | inr other ↦ rw other
]

abbrev unavailable : Error
unavailable = message (codes "not found")

upsert-Agrees_example :
    ((Postgres.upsert none 9 changed_report rows).0 ≡ none)
    × ((Firestore.upsert no_faults 9 changed_report docs).0 ≡ none)
    × Agrees
        (Postgres.upsert none 9 changed_report rows).1
        (Firestore.upsert no_faults 9 changed_report docs).1
    × ((id : Text)
        → find (Postgres.upsert none 9 changed_report rows).1 id ≡ (
            if text_eq (codes "id-1") id
            then some (queued 9 changed_report (find rows (codes "id-1")))
            else find rows id))
upsert-Agrees_example = upsert-Agrees 9 changed_report rows docs rows-Agrees

update_status-Agrees_example :
    Agrees
      (Postgres.update_status none 9 (codes "id-1") status_done rows).1
      (Firestore.update_status none unavailable 9 (codes "id-1") status_done docs).1
    × ((id : Text)
        → find (Postgres.update_status none 9 (codes "id-1") status_done rows).1 id ≡ (
            if text_eq (codes "id-1") id
            then status_set 9 status_done (find rows id)
            else find rows id))
update_status-Agrees_example =
    update_status-Agrees unavailable 9 (codes "id-1") status_done rows docs rows-IsKeyed rows-Agrees

missing : find rows (codes "id-2") ≡ none
unfolding find
missing = refl

update_status_missing_example :
    ((Postgres.update_status none 9 (codes "id-2") status_done rows).0 ≡ none)
    × ((Firestore.update_status none unavailable 9 (codes "id-2") status_done docs).0
        ≡ some unavailable)
    × ((Firestore.update_status none unavailable 9 (codes "id-2") status_done docs).1 ≡ docs)
    × (find (Postgres.update_status none 9 (codes "id-2") status_done rows).1 (codes "id-2") ≡ none)
update_status_missing_example =
    update_status_missing unavailable 9 (codes "id-2") status_done rows docs rows-IsKeyed
      rows-Agrees missing

abbrev queued_report : File
queued_report = record report { sync_status = status_pending }

-- The server gives the rows backwards.
listed_rows :
    Postgres.list_pending reverse none (λ f. none) none (report ∷ queued_report ∷ [])
    ≡ ok (queued_report ∷ [])
unfolding Postgres.list_pending select_pending scan_rows
listed_rows = refl

list_pending-rows_example :
    (files : List File) × (settled : List File) × Permᴰ
      (files ++ settled)
      (report ∷ queued_report ∷ [])
    × All IsPending files
    × All (λ f. ¬ (IsPending f)) settled
    × (Postgres.list_pending reverse none (λ f. none) none (report ∷ queued_report ∷ [])
        ≡ result_of (or_else none (first_scan (λ f. none) files none)) files)
list_pending-rows_example =
    list_pending-rows reverse none (λ f. none) none (report ∷ queued_report ∷ []) Permᴰ.reverse

abbrev no_read_faults : ReadFaults
no_read_faults = record { next = λ id. none; data_to = λ d. none; last = none }

abbrev queued_docs : Collection
queued_docs = (codes "id-1", new_file_doc 4 report) ∷ docs

listed_docs : Firestore.list_pending no_read_faults queued_docs ≡ ok (fresh 4 report ∷ [])
unfolding Firestore.list_pending where_pending read_docs new_file_doc file_of_doc fresh
listed_docs = refl
