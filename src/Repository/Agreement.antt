-- ===== src/Repository/Agreement.antt =====
-- The two backends of internal/repository side by side: a table and a collection that show the same
-- files, under the same calls at the same times.
use mathlib.Core.Path.{ap₂}
use go_drive_etl.Common.{
  ℕ, refl, none, some, Text, Error, ◌≡◌, if◌then◌else◌, text_eq, ◌∙◌, ap, sym, text_eq_refl,
}
use go_drive_etl.Domain.{File, SyncStatus}
use go_drive_etl.Repository.{queued, status_set}
use go_drive_etl.Repository.Postgres
use go_drive_etl.Repository.Postgres.{Table, find}
use go_drive_etl.Repository.Postgres.Rows.{IsKeyed, find-upsert_rows, find-update_rows}
use go_drive_etl.Repository.Firestore
use go_drive_etl.Repository.Firestore.{Collection, no_faults}
use go_drive_etl.Repository.Firestore.Docs.{
  view, upsert-view, update_status_missing_doc, update_status-view,
}

abbrev pub Agrees : Table → Collection → Type 0
Agrees t docs = (id : Text) → find t id ≡ view docs id

pub postgres-upsert :
    (now : ℕ) (f : File) (t : Table) (id : Text)
    → find (Postgres.upsert none now f t).1 id ≡ (
        if text_eq f.drive_file_id id
        then some (queued now f (find t f.drive_file_id))
        else find t id)
unfolding Postgres.upsert
postgres-upsert now f t id = find-upsert_rows now f t id

pub postgres-update_status :
    (now : ℕ) (key : Text) (status : SyncStatus) (t : Table) (id : Text)
    → IsKeyed t
    → find (Postgres.update_status none now key status t).1 id
      ≡ (if text_eq key id then status_set now status (find t id) else find t id)
unfolding Postgres.update_status
postgres-update_status now key status t id v = find-update_rows now key status t id v

-- On stores that show the same files, `Upsert` without a fault does the same, though one states
-- in SQL when a row is updated and the other in Go when a document is not: it returns no error,
-- and then the store shows, for the file, what was there if the file is settled and the file
-- queued anew if it is not, and all other files as before.
pub upsert-Agrees :
    (now : ℕ) (f : File) (t : Table) (docs : Collection)
    → Agrees t docs
    → ((Postgres.upsert none now f t).0 ≡ none)
      × ((Firestore.upsert no_faults now f docs).0 ≡ none)
      × Agrees (Postgres.upsert none now f t).1 (Firestore.upsert no_faults now f docs).1
      × ((id : Text)
          → find (Postgres.upsert none now f t).1 id ≡ (
              if text_eq f.drive_file_id id
              then some (queued now f (find t f.drive_file_id))
              else find t id))
upsert-Agrees now f t docs same =
    let (fine, seen) = upsert-view now f docs in
    (
      unfold Postgres.upsert in refl,
      fine,
      (λ id.
          postgres-upsert now f t id
          ∙ ap₂ (λ x y. if text_eq f.drive_file_id id then some (queued now f x) else y)
              (same f.drive_file_id) (same id)
          ∙ sym (seen id)),
      postgres-upsert now f t,
    )

-- Where the IDs of the table are unique and both backends show the same files, `UpdateStatus`
-- without a fault keeps them showing the same files, and on both it sets the status and the time
-- of the file, if it is there, and touches no other.
pub update_status-Agrees :
    (not_found : Error) (now : ℕ) (key : Text) (status : SyncStatus) (t : Table) (docs : Collection)
    → IsKeyed t
    → Agrees t docs
    → Agrees
        (Postgres.update_status none now key status t).1
        (Firestore.update_status none not_found now key status docs).1
      × ((id : Text)
          → find (Postgres.update_status none now key status t).1 id
            ≡ (if text_eq key id then status_set now status (find t id) else find t id))
update_status-Agrees not_found now key status t docs v same = (
  (λ id.
      postgres-update_status now key status t id v
      ∙ ap (λ x. if text_eq key id then status_set now status x else x) (same id)
      ∙ sym (update_status-view not_found now key status docs id)),
  λ id. postgres-update_status now key status t id v,
)

-- Where the IDs of the table are unique and both backends show the same files, they answer
-- differently to an `UpdateStatus` without a fault for a file that they do not have: Firestore
-- refuses the update with its error for a missing document, and PostgreSQL reports success.
-- Neither adds a file.
pub update_status_missing :
    (not_found : Error) (now : ℕ) (key : Text) (status : SyncStatus) (t : Table) (docs : Collection)
    → IsKeyed t
    → Agrees t docs
    → find t key ≡ none
    → ((Postgres.update_status none now key status t).0 ≡ none)
      × ((Firestore.update_status none not_found now key status docs).0 ≡ some not_found)
      × ((Firestore.update_status none not_found now key status docs).1 ≡ docs)
      × (find (Postgres.update_status none now key status t).1 key ≡ none)
update_status_missing not_found now key status t docs v same gone =
    let refused = update_status_missing_doc not_found now key status docs (sym (same key) ∙ gone) in
    (
      unfold Postgres.update_status in refl,
      ap (λ x. x.0) refused,
      ap (λ x. x.1) refused,
      postgres-update_status now key status t key v
          ∙ rw (text_eq_refl key, gone) (unfold status_set in refl),
    )
