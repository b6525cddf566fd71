-- ===== src/Pipeline/Registration.antt =====
-- The loop of `runPipeline` in cmd/worker/main.go that registers the files, over any state store
-- that keeps what `repository.FileRepo` promises.
use go_drive_etl.Common.{
  ℕ, none, some, true, false, [], ◌∷◌, Text, Bool, List, Option, ◌+◌, ◌≡◌, refl, ap, ◌∙◌, arith,
  if◌then◌else◌, text_eq, text_eq_refl,
}
use mathlib.Core.Path.{fun_ext}
use go_drive_etl.Domain.{File, SyncStatus, status_pending}
use go_drive_etl.Services.{DriveFile}
use go_drive_etl.Repository.{View, queued, status_set}
use go_drive_etl.Pipeline.{
  FileRepo, record_of, register_file, register_files, after_upsert, failure_count,
}

-- A view with one entry replaced.
abbrev pub put : Text → Option File → View → View
put key entry v id = if text_eq key id then entry else v id

-- What a store without faults promises: `view` shows its files, `now` is its clock, which counts
-- the calls, and `IsValid` is kept by every call.
pub record StoreLaws {W : Type 0} (repo : FileRepo W) (view : W → View) (now : W → ℕ)
    (IsValid : W → Type 0) : Type 0 where
  pub upsert_ok : (f : File) (w : W) → IsValid w → (repo.upsert f w).0 ≡ none
  pub upsert-IsValid : (f : File) (w : W) → IsValid w → IsValid (repo.upsert f w).1
  pub now-upsert : (f : File) (w : W) → now (repo.upsert f w).1 ≡ now w + 1
  pub view-upsert :
      (f : File) (w : W)
      → IsValid w
      → view (repo.upsert f w).1
        ≡ put f.drive_file_id (some (queued (now w) f (view w f.drive_file_id))) (view w)
  pub update_status_ok :
      (id : Text) (status : SyncStatus) (w : W) {f : File}
      → IsValid w
      → view w id ≡ some f
      → (repo.update_status id status w).0 ≡ none
  pub update_status-IsValid :
      (id : Text) (status : SyncStatus) (w : W)
      → IsValid w
      → IsValid (repo.update_status id status w).1
  pub now-update_status :
      (id : Text) (status : SyncStatus) (w : W) → now (repo.update_status id status w).1 ≡ now w + 1
  pub view-update_status :
      (id : Text) (status : SyncStatus) (w : W)
      → IsValid w
      → view (repo.update_status id status w).1
        ≡ put id (status_set (now w) status (view w id)) (view w)

-- A file registered: queued, and set to pending again where everything is to be reprocessed.
abbrev pub entered : Bool → ℕ → File → Option File → File
entered false now f old = queued now f old
entered true now f old = record (queued now f old) {
  sync_status = status_pending;
  updated_at = now + 1;
}

abbrev pub calls_for : Bool → ℕ
calls_for false = 1
calls_for true = 2

-- The files registered one after the other, on a view.
pub registered : Bool → List DriveFile → ℕ → View → View
registered all [] now v = v
registered all (file ∷ files) now v =
    registered all files (now + calls_for all)
      (put file.id (some (entered all now (record_of file) (v file.id))) v)

module _ {W : Type 0} (repo : FileRepo W) (view : W → View) (now : W → ℕ) (IsValid : W → Type 0)
    (laws : StoreLaws repo view now IsValid) where
  -- One file: no failure, and its entry.
  record Enters (all : Bool) (file : DriveFile) (w : W) (r : ℕ × W) : Type 0 where
    no_failure : r.0 ≡ 0
    valid : IsValid r.1
    time : now r.1 ≡ now w + calls_for all
    shows :
        view r.1
        ≡ put file.id (some (entered all (now w) (record_of file) (view w file.id))) (view w)

  put_twice : (key : Text) (x y : Option File) (v : View) → put key x (put key y v) ≡ put key x v
  put_twice key x y v = fun_ext λ id. ground arith

  register_file-Enters :
      (all : Bool) (file : DriveFile) (w : W)
      → IsValid w
      → Enters all file w (register_file repo all file w)
  unfolding register_file after_upsert
  register_file-Enters false file w v =
      rw (after_upsert, laws.upsert_ok (record_of file) w v)
        (record {
          no_failure = refl;
          valid = laws.upsert-IsValid (record_of file) w v;
          time = laws.now-upsert (record_of file) w;
          shows = laws.view-upsert (record_of file) w v;
        })
  register_file-Enters true file w v =
      rw (after_upsert, laws.upsert_ok (record_of file) w v)
        (let w' : W = (repo.upsert (record_of file) w).1 in
          let valid = laws.upsert-IsValid (record_of file) w v in
          let entry : File = queued (now w) (record_of file) (view w file.id) in
          let shown = laws.view-upsert (record_of file) w v in
          let present : view w' file.id ≡ some entry =
            ap (λ (x : View). x file.id) shown ∙ rw (text_eq_refl file.id) in
          record {
            no_failure =
                ap failure_count (laws.update_status_ok file.id status_pending w' valid present);
            valid = laws.update_status-IsValid file.id status_pending w' valid;
            time = omega (
              arith,
              laws.now-update_status file.id status_pending w',
              laws.now-upsert (record_of file) w,
            );
            shows =
                laws.view-update_status file.id status_pending w' valid
                ∙ ap (λ x. put file.id (status_set (now w') status_pending x) (view w')) present
                ∙ rw (laws.now-upsert (record_of file) w, shown)
                    (unfold status_set in put_twice file.id _ (some entry) (view w));
          })

  -- Registering any files on a store without faults succeeds for all of them, and the store then
  -- shows what registering them on its view shows.
  pub register_files-registered :
      (all : Bool) (files : List DriveFile) (failures : ℕ) (w : W)
      → IsValid w
      → ((register_files repo all files failures w).0 ≡ failures)
        × IsValid (register_files repo all files failures w).1
        × (view (register_files repo all files failures w).1
            ≡ registered all files (now w) (view w))
  unfolding register_files registered
  register_files-registered all [] failures w v = (refl, v, refl)
  register_files-registered all (file ∷ files) failures w v =
      let one = register_file-Enters all file w v in
      let (same, valid, shows) =
        register_files-registered all files (failures + (register_file repo all file w).0)
          (register_file repo all file w).1 one.valid in
      (same ∙ omega (arith, one.no_failure), valid, shows ∙ rw (one.time, one.shows))
