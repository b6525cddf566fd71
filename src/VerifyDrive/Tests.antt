-- ===== src/VerifyDrive/Tests.antt =====
-- A successful run over one file; the state counts the calls that change something.
use go_drive_etl.Common.{ℕ, none, [], ◌∷◌, ok, codes, Text, ◌≡◌, List, refl, ◌+◌, ap}
use go_drive_etl.Services.{DriveClient, DriveFile}
use go_drive_etl.VerifyDrive.{
  Outside, run, with_drive, with_files, with_repo, with_pending, with_bq, rows_of, upsert_files,
}
use go_drive_etl.VerifyDrive.Steps.{Connected, run-Connected}

abbrev note : DriveFile
note = record {
  id = codes "1";
  name = codes "a.md";
  mime_type = codes "text/markdown";
  md5_checksum = codes "c";
}

abbrev drive_client : DriveClient ℕ
drive_client = record {
  list_files = λ folder w. (ok (note ∷ []), w);
  download_file = λ id w. (ok [], w);
  upsert_file = λ folder name mime_type content w. (none, w + 1);
}

abbrev outside : Outside ℕ
outside = record {
  new_drive = λ w. (ok drive_client, w);
  new_repo =
      λ w. (ok (record { upsert = λ f v. (none, v + 1); list_pending = λ v. (ok [], v) }), w);
  close_repo = λ w. w + 1;
  new_bq = λ w. (ok (λ table rows v. (none, v + 1)), w);
  close_bq = λ w. w + 1;
  now = λ w. (w, w);
}

abbrev getenv : Text → Text
getenv key = codes "root"

succeeds : run outside getenv 0 ≡ (none, 4)
unfolding run with_drive with_files with_repo with_pending with_bq rows_of upsert_files
succeeds = refl

run-Connected_example :
    (drive : DriveClient ℕ) × (files : List DriveFile) × (at_drive : ℕ) × (listed : ℕ)
    × (outside.new_drive 0 ≡ (ok drive, at_drive))
    × (drive.list_files (codes "root") at_drive ≡ (ok files, listed))
    × Connected outside files listed (run outside getenv 0).1
run-Connected_example = run-Connected outside getenv 0 (ap (λ x. x.0) succeeds)
