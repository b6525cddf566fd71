-- ===== src/Pipeline/Backends.antt =====
-- The two state stores of internal/repository behind the interface that `runPipeline` of
-- cmd/worker/main.go registers files through. A state is a store and a clock that counts the calls.
use mathlib.Core.Path.{fun_ext}
use go_drive_etl.Common.{
  if◌then◌else◌, text_eq, text_eq_iff, Bool-cases, ℕ, none, Text, Bool, List, Error, ◌+◌, ◌≡◌, refl,
  sym, ap, ◌∙◌, inl, inr,
}
use go_drive_etl.Domain.{SyncStatus}
use go_drive_etl.Services.{DriveFile}
use go_drive_etl.Repository.{View, status_set}
use go_drive_etl.Repository.Postgres
use go_drive_etl.Repository.Postgres.{Table, find}
use go_drive_etl.Repository.Postgres.Rows.{IsKeyed, upsert-IsKeyed, update_status-IsKeyed}
use go_drive_etl.Repository.Firestore
use go_drive_etl.Repository.Firestore.{Collection, no_faults}
use go_drive_etl.Repository.Firestore.Docs.{
  view, upsert-view, update_status-view, update_status_present,
}
use go_drive_etl.Repository.Agreement.{Agrees, postgres-upsert, postgres-update_status}
use go_drive_etl.Pipeline.{FileRepo, register_files}
use go_drive_etl.Pipeline.Registration.{put, StoreLaws, registered, register_files-registered}

-- `FileRepository`, where no statement fails.
abbrev pub postgres_repo : FileRepo (ℕ × Table)
postgres_repo = record {
  upsert =
      λ f w. ((Postgres.upsert none w.0 f w.1).0, (w.0 + 1, (Postgres.upsert none w.0 f w.1).1));
  update_status = λ id status w. (
    (Postgres.update_status none w.0 id status w.1).0,
    (w.0 + 1, (Postgres.update_status none w.0 id status w.1).1),
  );
}

-- `FirestoreFileRepository`, where the service refuses only documents that are missing.
abbrev pub firestore_repo : Error → FileRepo (ℕ × Collection)
firestore_repo not_found = record {
  upsert = λ f w. (
    (Firestore.upsert no_faults w.0 f w.1).0,
    (w.0 + 1, (Firestore.upsert no_faults w.0 f w.1).1),
  );
  update_status = λ id status w. (
    (Firestore.update_status none not_found w.0 id status w.1).0,
    (w.0 + 1, (Firestore.update_status none not_found w.0 id status w.1).1),
  );
}

put_own :
    (now : ℕ) (key id : Text) (status : SyncStatus) (v : View)
    → (if text_eq key id then status_set now status (v id) else v id)
      ≡ put key (status_set now status (v key)) v id
put_own now key id status v = elim (Bool-cases (text_eq key id)) [
  | inl e ↦ rw ((text_eq_iff key id).0 e)
  | inr e ↦ rw e
]

postgres_repo-StoreLaws : StoreLaws postgres_repo (λ w. find w.1) (λ w. w.0) (λ w. IsKeyed w.1)
postgres_repo-StoreLaws = record {
  upsert_ok = λ f w v. unfold Postgres.upsert in refl;
  upsert-IsValid = λ f w v. upsert-IsKeyed none w.0 f w.1 v;
  now-upsert = λ f w. refl;
  view-upsert = λ f w v. fun_ext (postgres-upsert w.0 f w.1);
  update_status_ok = λ id status w v h. unfold Postgres.update_status in refl;
  update_status-IsValid = λ id status w v. update_status-IsKeyed none w.0 id status w.1 v;
  now-update_status = λ id status w. refl;
  view-update_status = λ id status w v.
      fun_ext λ key.
        postgres-update_status w.0 id status w.1 key v ∙ put_own w.0 id key status (find w.1);
}

firestore_repo-StoreLaws :
    (not_found : Error)
    → StoreLaws (firestore_repo not_found) (λ w. view w.1) (λ w. w.0) (λ w. Unit {0})
firestore_repo-StoreLaws not_found = record {
  upsert_ok = λ f w v. (upsert-view w.0 f w.1).0;
  upsert-IsValid = λ f w v. tt;
  now-upsert = λ f w. refl;
  view-upsert = λ f w v. fun_ext (upsert-view w.0 f w.1).1;
  update_status_ok = λ id status w v h. update_status_present not_found w.0 id status w.1 h;
  update_status-IsValid = λ id status w v. tt;
  now-update_status = λ id status w. refl;
  view-update_status = λ id status w v. fun_ext λ key.
      update_status-view not_found w.0 id status w.1 key ∙ put_own w.0 id key status (view w.1);
}

-- Without faults of the stores, the pipeline registers all files of a list on either of them, none
-- failing, and ends with what registering them in turn makes of the files that the store showed. So
-- stores that showed the same files do so afterwards. The IDs of the table have to be unique.
pub register_files-Agrees :
    (not_found : Error) (all : Bool) (files : List DriveFile) (now : ℕ) (t : Table)
    (docs : Collection)
    → IsKeyed t
    → Agrees t docs
    → ((register_files postgres_repo all files 0 (now, t)).0 ≡ 0)
      × ((register_files (firestore_repo not_found) all files 0 (now, docs)).0 ≡ 0)
      × (find ((register_files postgres_repo all files 0 (now, t)).1).1
          ≡ registered all files now (find t))
      × Agrees
          ((register_files postgres_repo all files 0 (now, t)).1).1
          ((register_files (firestore_repo not_found) all files 0 (now, docs)).1).1
register_files-Agrees not_found all files now t docs keyed same =
    let (p, _, shown) =
      register_files-registered postgres_repo _ _ _ postgres_repo-StoreLaws all files 0 (now, t)
        keyed in
    let (f, _, shown') =
      register_files-registered (firestore_repo not_found) _ _ _
        (firestore_repo-StoreLaws not_found) all files 0 (now, docs) tt in
    let e : find t ≡ view docs = fun_ext same in
    (p, f, shown, λ id. ap (λ v. v id) (shown ∙ ap (registered all files now) e ∙ sym shown'))
