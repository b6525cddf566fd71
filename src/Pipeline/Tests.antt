-- ===== src/Pipeline/Tests.antt =====
-- The theorem on the pipeline at a run over one file. The state counts the calls.
use go_drive_etl.Common.{
  ℕ, none, [], ◌∷◌, codes, ok, Option, Error, ◌+◌, ◌≡◌, refl, true, canceled, List, err,
}
use go_drive_etl.Repository.Postgres.{find}
use go_drive_etl.Repository.Firestore.{find_doc}
use go_drive_etl.Repository.Firestore.Docs.{view}
use go_drive_etl.Repository.Agreement.{Agrees}
use go_drive_etl.Pipeline.{register_files, DriveFile, FileRepo}
use go_drive_etl.Pipeline.Registration.{registered}
use go_drive_etl.Pipeline.Backends.{postgres_repo, firestore_repo, register_files-Agrees}
use go_drive_etl.Monitoring.{RunMetadata}
use go_drive_etl.Pipeline.Command.{Outside, run, main, returned}
use go_drive_etl.Pipeline.Exit.{IsReported, run-IsReported}
use go_drive_etl.Services.{DriveClient, Source}

abbrev repo : FileRepo ℕ
repo = record { upsert = λ file w. (none, w + 1); update_status = λ id status w. (none, w + 1) }

abbrev drive : DriveClient ℕ
drive = record {
  list_files = λ folder w. (
    ok (
        record {
          id = codes "1";
          name = codes "a.md";
          mime_type = codes "text/markdown";
          md5_checksum = [];
        }
        ∷ []),
    w + 1,
  );
  download_file = λ id w. (ok [], w + 1);
  upsert_file = λ folder name mime_type content w. (none, w + 1);
}

abbrev bq : Source ℕ
bq = record { export_table_csv = λ table w. (ok [], w + 1) }

abbrev run_pool : ℕ → Option Error × ℕ
run_pool w = (none, w + 1)

-- One file is registered on two empty stores.
abbrev found : List DriveFile
found =
    record {
      id = codes "1";
      name = codes "a.md";
      mime_type = codes "text/markdown";
      md5_checksum = [];
    }
    ∷ []

empty-Agrees : Agrees [] []
unfolding find view find_doc
empty-Agrees id = refl

register_files-Agrees_example :
    ((register_files postgres_repo true found 0 (3, [])).0 ≡ 0)
    × ((register_files (firestore_repo canceled) true found 0 (3, [])).0 ≡ 0)
    × (find ((register_files postgres_repo true found 0 (3, [])).1).1
        ≡ registered true found 3 (find []))
    × Agrees
        ((register_files postgres_repo true found 0 (3, [])).1).1
        ((register_files (firestore_repo canceled) true found 0 (3, [])).1).1
register_files-Agrees_example = register_files-Agrees canceled true found 3 [] [] tt empty-Agrees

-- The Drive client opens, the state store does not.
abbrev no_repo : Outside ℕ
no_repo = record {
  new_drive = λ w. (ok drive, w + 1);
  new_repo = λ w. (err canceled, w + 1);
  close_repo = λ w. w;
  new_bq = λ w. (ok bq, w + 1);
  close_bq = λ w. w;
  run_pool = λ repo drive bq w. (none, w);
}

abbrev metadata : RunMetadata
metadata = record { environment = codes "local"; release = codes "unknown"; load_id = codes "0f" }

run-IsReported_example :
    IsReported
      (run no_repo (λ key. []) 0).0
      (main metadata none (returned (run no_repo (λ key. []) 0).0))
run-IsReported_example = run-IsReported no_repo (λ key. []) metadata 0
