-- ===== src/Pipeline/Order.antt =====
-- The order of the pipeline of cmd/worker/main.go, and the stage of its errors.
use go_drive_etl.Monitoring.{stage_from_error, as_stage_error, with_stage}
use go_drive_etl.Common.{
  zero, suc, refl, none, some, ok, Text, arith, ◌≡◌, Option, Error, Bool, List, err, codes, Result,
  ℕ, ◌∷◌, suc, ◌<◌, [], ◌≢◌,
}
use go_drive_etl.GoldReport
use go_drive_etl.Services.{DriveClient, DriveFile, Source}
use go_drive_etl.Pipeline.{
  FileRepo, after_pool, export_gold_reports, register_files, pool_failed, run_pipeline,
  after_listing, registration_failed, listing_failed,
}

module _ {W : Type 0} (repo : FileRepo W) (drive : DriveClient W) (bq : Source W)
    (run_pool : W → Option Error × W) (reprocess_all : Bool) where
  -- The steps before the export, each on the state that the one before it left: Drive's list, the
  -- registration with its number of failures, and the pool with its error.
  pub record Pooled (folder : Text) (w : W) (failures : ℕ) (error : Option Error) (w' : W)
      : Type 0 where
    pub files : List DriveFile
    pub at_list : W
    pub at_pool : W
    pub listed : drive.list_files folder w ≡ (ok files, at_list)
    pub registered : register_files repo reprocess_all files 0 at_list ≡ (failures, at_pool)
    pub pooled : run_pool at_pool ≡ (error, w')

  -- How a run ends, by its error and the state that it leaves.
  pub data Ended (folder export_folder : Text) (w : W) (outcome : Option Error × W) : Type 0 where
    at_listing :
        (e f : Error) (w' : W)
        → drive.list_files folder w ≡ (err e, w')
        → outcome ≡ (some f, w')
        → stage_from_error f ≡ codes "download"
        → Ended folder export_folder w outcome
    at_pool :
        (e f : Error) (failures : ℕ) (w' : W)
        → Pooled folder w failures (some e) w'
        → outcome ≡ (some f, w')
        → stage_from_error f ≡ codes "load"
        → Ended folder export_folder w outcome
    at_registration :
        (f : Error) (failures : ℕ) (w' : W)
        → 0 < failures
        → Pooled folder w failures none w'
        → outcome ≡ (some f, w')
        → stage_from_error f ≡ codes "load"
        → Ended folder export_folder w outcome
    left_out :
        (w' : W)
        → Pooled folder w 0 none w'
        → export_folder ≡ []
        → outcome ≡ (none, w')
        → Ended folder export_folder w outcome
    at_export :
        (e f : Error) (w' v : W)
        → Pooled folder w 0 none w'
        → export_folder ≢ []
        → GoldReport.export_reports drive bq export_folder w' ≡ (some e, v)
        → outcome ≡ (some f, v)
        → stage_from_error f ≡ codes "export"
        → Ended folder export_folder w outcome
    at_end :
        (w' v : W)
        → Pooled folder w 0 none w'
        → export_folder ≢ []
        → GoldReport.export_reports drive bq export_folder w' ≡ (none, v)
        → outcome ≡ (none, v)
        → Ended folder export_folder w outcome

  export_gold_reports-Ended :
      (folder export_folder : Text) (w w' : W)
      → Pooled folder w 0 none w'
      → Ended folder export_folder w (export_gold_reports drive bq export_folder w')
  unfolding export_gold_reports
  export_gold_reports-Ended folder [] w w' all = left_out w' all refl refl
  export_gold_reports-Ended folder (c ∷ export_folder) w w' all =
      exported (GoldReport.export_reports drive bq (c ∷ export_folder) w').0
        (GoldReport.export_reports drive bq (c ∷ export_folder) w').1 refl
    where
      exported :
          (r : Option Error) (v : W)
          → GoldReport.export_reports drive bq (c ∷ export_folder) w' ≡ (r, v)
          → Ended folder
              (c ∷ export_folder)
              w
              (elim r [ some e ↦ some (with_stage (codes "export") e) | none ↦ none ], v)
      exported none v h = at_end w' v all (λ e. cc) h refl
      exported (some e) v h =
          at_export e (with_stage (codes "export") e) w' v all (λ e. cc) h refl
            (unfold stage_from_error as_stage_error in refl)

  after_pool-Ended :
      (folder export_folder : Text) (w : W) (failures : ℕ) (r : Option Error) (w' : W)
      → Pooled folder w failures r w'
      → Ended folder export_folder w
          (after_pool repo drive bq run_pool reprocess_all export_folder failures r w')
  unfolding after_pool
  after_pool-Ended folder export_folder w failures (some e) w' all =
      at_pool e (pool_failed repo drive bq run_pool reprocess_all e) failures w' all refl
        (unfold stage_from_error as_stage_error in refl)
  after_pool-Ended folder export_folder w zero none w' all =
      export_gold_reports-Ended folder export_folder w w' all
  after_pool-Ended folder export_folder w (suc n) none w' all =
      at_registration (registration_failed repo drive bq run_pool reprocess_all) (suc n) w'
        (omega arith) all (ground arith) (unfold stage_from_error as_stage_error in refl)

  after_listing-Ended :
      (folder export_folder : Text) (w : W) (l : Result (List DriveFile)) (w' : W)
      → drive.list_files folder w ≡ (l, w')
      → Ended folder export_folder w
          (after_listing repo drive bq run_pool reprocess_all export_folder l w')
  unfolding after_listing
  after_listing-Ended folder export_folder w (err e) w' h =
      at_listing e (listing_failed repo drive bq run_pool reprocess_all e) w' h refl
        (unfold stage_from_error as_stage_error in refl)
  after_listing-Ended folder export_folder w (ok files) w' h =
      let (failures, v) = register_files repo reprocess_all files 0 w' in
      let (result, v') = run_pool v in
      after_pool-Ended folder export_folder w failures result v' (record {
        files = files;
        at_list = w';
        at_pool = v;
        listed = h;
        registered = refl;
        pooled = refl;
      })

  pub run_pipeline-Ended :
      (folder export_folder : Text) (w : W)
      → Ended folder export_folder w
          (run_pipeline repo drive bq run_pool reprocess_all folder export_folder w)
  unfolding run_pipeline
  run_pipeline-Ended folder export_folder w =
      after_listing-Ended folder export_folder w _ (drive.list_files folder w).1 refl
