-- ===== src/Pipeline/Exit.antt =====
-- What a run of cmd/worker leaves behind.
use go_drive_etl.Common.{
  none, some, [], ◌∷◌, ok, err, Text, codes, Error, Option, Result, ◌≡◌, refl, Bool,
}
use go_drive_etl.Services.{DriveClient, Source}
use go_drive_etl.Monitoring.{
  RunMetadata, Report, capture_failure, public_run_error, stage_from_error, as_stage_error,
  public_text,
}
use go_drive_etl.Monitoring.Stage.{capture_failure-public}
use go_drive_etl.Pipeline.{FileRepo}
use go_drive_etl.Pipeline.Order.{
  Ended, at_listing, at_pool, at_registration, left_out, at_export, at_end, run_pipeline-Ended,
}
use go_drive_etl.Pipeline.Command.{
  Outside, run, with_bq, with_repo, with_drive, pipeline_failed, startup_failed, main, returned,
  Process,
}

-- The stages that the code names.
pub data IsStage : Text → Type 0 where
  at_startup : IsStage (codes "startup")
  in_download : IsStage (codes "download")
  in_load : IsStage (codes "load")
  in_export : IsStage (codes "export")

-- An error, if there is one, has such a stage.
abbrev HasStage : Option Error → Type 0
HasStage none = Unit
HasStage (some e) = IsStage (stage_from_error e)

-- A process that went well, or that reports one failure: its stage, and nothing of its text.
abbrev pub IsReported : Option Error → Process → Type 0
IsReported none p = (p.exit_code ≡ 0) × (p.reports ≡ []) × (p.flushes ≡ 1)
IsReported (some e) p =
    (p.exit_code ≡ 1)
    × (p.flushes ≡ 1)
    × ((r : Report) × (p.reports ≡ r ∷ [])
        × IsStage r.stage
        × (r.stage ≡ stage_from_error e)
        × (r.exception ≡ public_text))

HasStage-pipeline_failed : (o : Option Error) → HasStage o → HasStage (pipeline_failed o)
unfolding stage_from_error as_stage_error
HasStage-pipeline_failed none h = tt
HasStage-pipeline_failed (some e) h = h

is_stage : {s t : Text} → s ≡ t → IsStage t → IsStage s
is_stage e h = rw e h

module _ {W : Type 0} where
  HasStage-Ended :
      (repo : FileRepo W) (drive : DriveClient W) (bq : Source W) (pool : W → Option Error × W)
      {folder export_folder : Text} {w : W} {outcome : Option Error × W} (all : Bool)
      → Ended repo drive bq pool all folder export_folder w outcome
      → HasStage outcome.0
  HasStage-Ended repo drive bq pool all (at_listing e f w' l r s) = rw r (is_stage s in_download)
  HasStage-Ended repo drive bq pool all (at_pool e f n w' l r s) = rw r (is_stage s in_load)
  HasStage-Ended repo drive bq pool all (at_registration f n w' m l r s) = rw r (is_stage s in_load)
  HasStage-Ended repo drive bq pool all (left_out w' l x r) = rw r tt
  HasStage-Ended repo drive bq pool all (at_export e f w' v l x y r s) = rw r (is_stage s in_export)
  HasStage-Ended repo drive bq pool all (at_end w' v l x y r) = rw r tt

  module _ (out : Outside W) (getenv : Text → Text) where
    startup_failed-HasStage : (text : Text) (e : Error) → HasStage (some (startup_failed text e))
    unfolding stage_from_error as_stage_error
    startup_failed-HasStage text e = at_startup

    with_bq-HasStage :
        (drive : DriveClient W) (repo : FileRepo W) (b : Result (Source W)) (w : W)
        → HasStage (with_bq out getenv drive repo b w).0
    unfolding with_bq
    with_bq-HasStage drive repo (err e) w = startup_failed-HasStage _ e
    with_bq-HasStage drive repo (ok bq) w =
        HasStage-pipeline_failed _
          (HasStage-Ended repo drive bq _ _ (run_pipeline-Ended repo drive bq _ _ _ _ w))

    with_repo-HasStage :
        (drive : DriveClient W) (r : Result (FileRepo W)) (w : W)
        → HasStage (with_repo out getenv drive r w).0
    unfolding with_repo
    with_repo-HasStage drive (err e) w = startup_failed-HasStage _ e
    with_repo-HasStage drive (ok repo) w = with_bq-HasStage drive repo _ _

    run-HasStage : (w : W) → HasStage (run out getenv w).0
    unfolding run
    run-HasStage w = at_drive (out.new_drive w).0 (out.new_drive w).1
      where
        at_drive : (d : Result (DriveClient W)) (w : W) → HasStage (with_drive out getenv d w).0
        at_drive (err e) w = startup_failed-HasStage _ e
        at_drive (ok drive) w = with_repo-HasStage drive _ _

    -- A run that returns no error ends the process with code 0 and sends nothing. One that
    -- returns an error ends it with code 1 and sends exactly one exception, whose stage is that
    -- of the error, one of the four that the code names, and whose text is the public one. Sentry
    -- is flushed once in both cases.
    pub run-IsReported :
        (metadata : RunMetadata) (w : W)
        → IsReported (run out getenv w).0 (main metadata none (returned (run out getenv w).0))
    run-IsReported metadata w = reported (run out getenv w).0 (run-HasStage w)
      where
        reported : (o : Option Error) → HasStage o → IsReported o (main metadata none (returned o))
        reported none h = unfold main in (refl, refl, refl)
        reported (some e) h =
            let (same, text, _) = capture_failure-public e metadata in
            unfold main in
            (
              refl,
              refl,
              (capture_failure (public_run_error e) metadata, refl, is_stage same h, same, text),
            )
