-- ===== src/Pipeline/Command.antt =====
-- `run` and `main` of cmd/worker/main.go. What constructs a client, and the worker pool, are
-- arguments; they act on the state `W` of the outside world.
use go_drive_etl.Common.{
  ℕ, none, some, [], ◌∷◌, ok, err, Text, codes, Error, Option, List, Result, wrapped, text_eq,
}
use go_drive_etl.Services.{DriveClient, Source}
use go_drive_etl.Monitoring.{
  RunMetadata, Report, capture_failure, public_run_error, recovered_panic_error, with_stage,
  startup,
}
use go_drive_etl.Pipeline.{FileRepo, run_pipeline}

-- What `run` uses of the outside.
pub record Outside (W : Type 0) : Type 0 where
  pub new_drive : W → Result (DriveClient W) × W
  pub new_repo : W → Result (FileRepo W) × W
  pub close_repo : W → W
  pub new_bq : W → Result (Source W) × W
  pub close_bq : W → W
  pub run_pool : FileRepo W → DriveClient W → Source W → W → Option Error × W

abbrev pub startup_failed : Text → Error → Error
startup_failed text e = with_stage startup (wrapped text e)

abbrev pub pipeline_failed : Option Error → Option Error
pipeline_failed none = none
pipeline_failed (some e) = some (wrapped (codes "ETL パイプラインの実行に失敗: ") e)

module _ {W : Type 0} (out : Outside W) (getenv : Text → Text) where
  -- From the BigQuery client on; `defer bq.Close()`.
  unfoldable pub with_bq : DriveClient W → FileRepo W → Result (Source W) → W → Option Error × W
  with_bq drive repo (err e) w = (some (startup_failed (codes "BigQuery クライアントの初期化に失敗: ") e), w)
  with_bq drive repo (ok bq) w =
      let (result, w') =
        run_pipeline repo drive bq (out.run_pool repo drive bq)
          (text_eq (getenv (codes "REPROCESS_ALL")) (codes "true"))
          (getenv (codes "DRIVE_FOLDER_ID")) (getenv (codes "DRIVE_EXPORT_FOLDER_ID")) w in
      (pipeline_failed result, out.close_bq w')

  -- From the state store on; `defer closeRepo()`.
  unfoldable pub with_repo : DriveClient W → Result (FileRepo W) → W → Option Error × W
  unfolding with_bq
  with_repo drive (err e) w = (some (startup_failed (codes "リポジトリの初期化に失敗: ") e), w)
  with_repo drive (ok repo) w =
      let (bq, w') = out.new_bq w in
      let (result, w'') = with_bq drive repo bq w' in (result, out.close_repo w'')

  -- From the Drive client on.
  unfoldable pub with_drive : Result (DriveClient W) → W → Option Error × W
  unfolding with_repo
  with_drive (err e) w = (some (startup_failed (codes "Drive クライアントの初期化に失敗: ") e), w)
  with_drive (ok drive) w = let (repo, w') = out.new_repo w in with_repo drive repo w'

  unfoldable pub run : W → Option Error × W
  unfolding with_drive
  run w = let (drive, w') = out.new_drive w in with_drive drive w'

-- How `run` ends: it returns, or it panics.
pub data Ending : Type 0 where
  returned : Option Error → Ending
  panicked : Ending

-- What the process leaves: the exceptions that it sent to Sentry, how often it flushed them, and
-- its exit code.
pub record Process : Type 0 where
  pub reports : List Report
  pub flushes : ℕ
  pub exit_code : ℕ

-- `main` behind `sentry.Init`, by the end of `run`.
unfoldable pub after_run : RunMetadata → Ending → Process
after_run metadata (returned none) = record { reports = []; flushes = 1; exit_code = 0 }
after_run metadata (returned (some e)) = record {
  reports = capture_failure (public_run_error e) metadata ∷ [];
  flushes = 1;
  exit_code = 1;
}
after_run metadata panicked = record {
  reports = capture_failure recovered_panic_error metadata ∷ [];
  flushes = 1;
  exit_code = 1;
}

-- `main`, by the error of `sentry.Init`, if there is one; `log.Fatal` exits with 1.
unfoldable pub main : RunMetadata → Option Error → Ending → Process
unfolding after_run
main metadata (some e) ending = record { reports = []; flushes = 0; exit_code = 1 }
main metadata none ending = after_run metadata ending
