-- ===== src/Pipeline.antt =====
-- cmd/worker/main.go: the pipeline of a run, over the interfaces of the state store, of Drive and
-- of BigQuery. All calls act on a state `W` of the outside world; the worker pool is one of them.
pub mod Order
pub mod Registration
pub mod Backends
pub mod Command
pub mod Exit
mod Tests
use go_drive_etl.Common.{
  ℕ, zero, suc, none, some, true, false, [], ◌∷◌, ok, err, Text, codes, Option, Error, Bool, List,
  Result, if◌then◌else◌, message, wrapped, is_empty, ltb, ◌+◌,
}
use go_drive_etl.Domain.{File, SyncStatus, status_pending}
use go_drive_etl.Services.{DriveClient, DriveFile, Source}
use go_drive_etl.GoldReport
use go_drive_etl.Monitoring.{with_stage}

-- The part of `repository.FileRepo` that registers files.
pub record FileRepo (W : Type 0) : Type 0 where
  pub upsert : File → W → Option Error × W
  pub update_status : Text → SyncStatus → W → Option Error × W

-- The record of a file that was found; its time is not set.
abbrev pub record_of : DriveFile → File
record_of file = record {
  drive_file_id = file.id;
  path = file.name;
  checksum = file.md5_checksum;
  mime_type = file.mime_type;
  sync_status = status_pending;
  updated_at = 0;
}

abbrev pub failure_count : Option Error → ℕ
failure_count none = 0
failure_count (some e) = 1

module _ {W : Type 0} (repo : FileRepo W) (reprocess_all : Bool) where
  -- From the result of `Upsert` on: the failures of the file.
  unfoldable pub after_upsert : DriveFile → Option Error → W → ℕ × W
  after_upsert file (some e) w = (1, w)
  after_upsert file none w =
      let (result, w') = repo.update_status file.id status_pending w in
      if reprocess_all then (failure_count result, w') else (0, w)

  unfoldable pub register_file : DriveFile → W → ℕ × W
  unfolding after_upsert
  register_file file w =
      let (result, w') = repo.upsert (record_of file) w in after_upsert file result w'

  -- The loop over the files, with `registrationFailures`.
  unfoldable pub register_files : List DriveFile → ℕ → W → ℕ × W
  register_files [] failures w = (failures, w)
  register_files (file ∷ files) failures w =
      let (n, w') = register_file file w in register_files files (failures + n) w'

module _ {W : Type 0} (drive : DriveClient W) (bq : Source W) where
  -- `exportGoldReports`.
  unfoldable pub export_gold_reports : Text → W → Option Error × W
  export_gold_reports export_folder w =
      if is_empty export_folder
      then (none, w)
      else (let (result, w') = GoldReport.export_reports drive bq export_folder w in
          (elim result [ some e ↦ some (with_stage (codes "export") e) | none ↦ none ], w'))

module _ {W : Type 0} (repo : FileRepo W) (drive : DriveClient W) (bq : Source W)
    (run_pool : W → Option Error × W) (reprocess_all : Bool) where
  abbrev pub pool_failed : Error → Error
  pool_failed e = with_stage (codes "load") (wrapped (codes "Worker Pool の実行に失敗: ") e)

  -- The message leaves out the number of files.
  abbrev pub registration_failed : Error
  registration_failed = with_stage (codes "load") (message (codes "ファイル登録または再処理の設定に失敗"))

  abbrev pub listing_failed : Error → Error
  listing_failed e = with_stage (codes "download") (wrapped (codes "Drive ファイル一覧の取得に失敗: ") e)

  -- From the result of the worker pool on.
  unfoldable pub after_pool : Text → ℕ → Option Error → W → Option Error × W
  after_pool export_folder failures (some e) w = (some (pool_failed e), w)
  after_pool export_folder failures none w =
      if ltb 0 failures
      then (some registration_failed, w)
      else export_gold_reports drive bq export_folder w

  -- From the list of the files on.
  unfoldable pub after_listing : Text → Result (List DriveFile) → W → Option Error × W
  after_listing export_folder (err e) w = (some (listing_failed e), w)
  after_listing export_folder (ok files) w =
      let (failures, w') = register_files repo reprocess_all files 0 w in
      let (result, w'') = run_pool w' in after_pool export_folder failures result w''

  unfoldable pub run_pipeline : Text → Text → W → Option Error × W
  unfolding after_listing after_pool
  run_pipeline folder export_folder w =
      let (files, w') = drive.list_files folder w in after_listing export_folder files w'
