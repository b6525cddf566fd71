-- ===== src/VerifyDrive/Steps.antt =====
-- What a successful run of cmd/verify_drive/main.go has done.
use go_drive_etl.Common.{
  none, some, [], ◌∷◌, ok, err, Text, codes, Error, Option, List, Result, ℕ, ◌≡◌, refl,
}
use go_drive_etl.Domain.{File}
use go_drive_etl.Etl.Rows.Content.{cell}
use go_drive_etl.Etl.Program.{text, time}
use go_drive_etl.Common.{ap, ◌≢◌, length}
use go_drive_etl.Pipeline.{record_of}
use go_drive_etl.Services.{DriveClient, DriveFile}
use go_drive_etl.Etl.Program.{Row}
use go_drive_etl.VerifyDrive.{
  Outside, FileRepo, InsertRows, run, with_drive, with_files, with_repo, with_pending, with_bq,
  rows_of, drive_file_row, upsert_files, insert_failed,
}

-- The row of a file at a time, by its cells.
pub record IsRowOf (file : DriveFile) (now : ℕ) (row : Row) : Type 0 where
  pub drive_file_id : cell (codes "drive_file_id") row ≡ some (text file.id)
  pub path : cell (codes "path") row ≡ some (text file.name)
  pub checksum : cell (codes "checksum") row ≡ some (text file.md5_checksum)
  pub mime_type : cell (codes "mime_type") row ≡ some (text file.mime_type)
  pub sync_status : cell (codes "sync_status") row ≡ some (text (codes "pending"))
  pub updated_at : cell (codes "updated_at") row ≡ some (time now)
  pub no_others : length row ≡ 6

drive_file_row-IsRowOf : (file : DriveFile) (now : ℕ) → IsRowOf file now (drive_file_row file now)
unfolding drive_file_row
drive_file_row-IsRowOf file now = record {
  drive_file_id = refl;
  path = refl;
  checksum = refl;
  mime_type = refl;
  sync_status = refl;
  updated_at = refl;
  no_others = refl;
}

pair_of : {A W : Type 0} (p : A × W) {a : A} → p.0 ≡ a → p ≡ (a, p.1)
pair_of p h = ap (λ a. (a, p.1)) h

module _ {W : Type 0} (out : Outside W) where
  -- One row for each file, in order, each at the time that the clock gives for it.
  pub data AreRows : List DriveFile → W → List Row → W → Type 0 where
    none_left : {w : W} → AreRows [] w [] w
    one_more :
        (file : DriveFile) (now : ℕ) (row : Row) {files : List DriveFile} {rows : List Row}
        {w v w' : W}
        → out.now w ≡ (now, v)
        → IsRowOf file now row
        → AreRows files v rows w'
        → AreRows (file ∷ files) w (row ∷ rows) w'

  rows_of-AreRows :
      (files : List DriveFile) (w : W)
      → AreRows files w (rows_of out files w).0 (rows_of out files w).1
  unfolding rows_of
  rows_of-AreRows [] w = none_left
  rows_of-AreRows (file ∷ files) w =
      one_more file (out.now w).0 (drive_file_row file (out.now w).0) refl
        (drive_file_row-IsRowOf file (out.now w).0) (rows_of-AreRows files (out.now w).1)

  -- One `Upsert` for each file, in order, of its record with the status `pending`; an error of the
  -- store ends nothing.
  pub data Registered (repo : FileRepo W) : List DriveFile → W → W → Type 0 where
    all_done : {w : W} → Registered repo [] w w
    upserted :
        (file : DriveFile) (result : Option Error) {files : List DriveFile} {w v w' : W}
        → repo.upsert
            (record {
              drive_file_id = file.id;
              path = file.name;
              checksum = file.md5_checksum;
              mime_type = file.mime_type;
              sync_status = codes "pending";
              updated_at = 0;
            })
            w
          ≡ (result, v)
        → Registered repo files v w'
        → Registered repo (file ∷ files) w w'

  upsert_files-Registered :
      (repo : FileRepo W) (files : List DriveFile) (w : W)
      → Registered repo files w (upsert_files repo files w)
  unfolding upsert_files
  upsert_files-Registered repo [] w = all_done
  upsert_files-Registered repo (file ∷ files) w =
      upserted file (repo.upsert (record_of file) w).0 refl
        (upsert_files-Registered repo files (repo.upsert (record_of file) w).1)

  -- From the listing of the pending files on: the client is constructed, the rows are made and
  -- inserted in one call, and both clients are closed.
  pub data Inserted (files : List DriveFile) (listed w' : W) : Type 0 where
    inserted :
        (insert_rows : InsertRows W) (rows : List Row) (at_client at_rows at_insert : W)
        → out.new_bq listed ≡ (ok insert_rows, at_client)
        → AreRows files at_client rows at_rows
        → insert_rows (codes "drive_files") rows at_rows ≡ (none, at_insert)
        → w' ≡ out.close_repo (out.close_bq at_insert)
        → Inserted files listed w'

  -- What a success says of the files, each step on the state that the one before it left.
  pub data Connected (files : List DriveFile) (listed w' : W) : Type 0 where
    nothing_to_do : files ≡ [] → w' ≡ listed → Connected files listed w'
    stored :
        (repo : FileRepo W) (pending : List File) (at_repo at_files at_pending : W)
        → files ≢ []
        → out.new_repo listed ≡ (ok repo, at_repo)
        → Registered repo files at_repo at_files
        → repo.list_pending at_files ≡ (ok pending, at_pending)
        → Inserted files at_pending w'
        → Connected files listed w'

  insert_failed-none : (r : Option Error) → insert_failed r ≡ none → r ≡ none
  insert_failed-none none h = refl
  insert_failed-none (some e) h = cc

  with_bq-Inserted :
      (files : List DriveFile) (bq : Result (InsertRows W)) (v w : W)
      → out.new_bq v ≡ (bq, w)
      → (with_bq out files bq w).0 ≡ none
      → Inserted files v (out.close_repo (with_bq out files bq w).1)
  unfolding with_bq
  with_bq-Inserted files (err e) v w same h = cc
  with_bq-Inserted files (ok insert_rows) v w same h =
      let (rows, w') = rows_of out files w in
      let sent = insert_rows (codes "drive_files") rows w' in
      inserted insert_rows rows w w' sent.1 same (rows_of-AreRows files w)
        (pair_of sent (insert_failed-none sent.0 h)) refl

  with_pending-Inserted :
      (files : List DriveFile) (p : Result (List File)) (w : W)
      → (with_pending out files p w).0 ≡ none
      → (pending : List File) × (p ≡ ok pending)
        × Inserted files w (out.close_repo (with_pending out files p w).1)
  unfolding with_pending
  with_pending-Inserted files (err e) w h = cc
  with_pending-Inserted files (ok pending) w h =
      (pending, refl, with_bq-Inserted files (out.new_bq w).0 w (out.new_bq w).1 refl h)

  with_repo-Connected :
      (files : List DriveFile) (listed w : W) (r : Result (FileRepo W))
      → files ≢ []
      → out.new_repo listed ≡ (r, w)
      → (with_repo out files r w).0 ≡ none
      → Connected files listed (with_repo out files r w).1
  unfolding with_repo
  with_repo-Connected files listed w (err e) some_file same h = cc
  with_repo-Connected files listed w (ok repo) some_file same h =
      let (p, at_pending) = repo.list_pending (upsert_files repo files w) in
      let (pending, e, done) = with_pending-Inserted files p at_pending h in
      stored repo pending w (upsert_files repo files w) at_pending some_file same
        (upsert_files-Registered repo files w)
        (pair_of (repo.list_pending (upsert_files repo files w)) e) done

  with_files-Connected :
      (f : Result (List DriveFile)) (w : W)
      → (with_files out f w).0 ≡ none
      → (files : List DriveFile) × (f ≡ ok files) × Connected files w (with_files out f w).1
  unfolding with_files
  with_files-Connected (err e) w h = cc
  with_files-Connected (ok []) w h = ([], refl, nothing_to_do refl refl)
  with_files-Connected (ok (file ∷ files)) w h = (
    file ∷ files,
    refl,
    with_repo-Connected (file ∷ files) w (out.new_repo w).1 (out.new_repo w).0 (λ e. cc) refl h,
  )

  -- A run of verify_drive that returns no error has constructed the Drive client and listed the
  -- folder of the environment; and then either it holds no files and nothing more was done, or
  -- these steps followed, each on the state that the one before it left: the state store was
  -- opened, every file was given to it, in order and as pending, whatever it answered, and its
  -- pending files were listed without an error; the BigQuery client was constructed, one row for
  -- each file, in their order and with the file's values, was inserted into `drive_files` in one
  -- call that succeeded, and both clients were closed.
  pub run-Connected :
      (getenv : Text → Text) (w : W)
      → (run out getenv w).0 ≡ none
      → (drive : DriveClient W) × (files : List DriveFile) × (at_drive : W) × (listed : W)
        × (out.new_drive w ≡ (ok drive, at_drive))
        × (drive.list_files (getenv (codes "DRIVE_FOLDER_ID")) at_drive ≡ (ok files, listed))
        × Connected files listed (run out getenv w).1
  unfolding run
  run-Connected getenv w h = connected (out.new_drive w).0 (out.new_drive w).1 refl h
    where
      connected :
          (d : Result (DriveClient W)) (v : W)
          → out.new_drive w ≡ (d, v)
          → (with_drive out (getenv (codes "DRIVE_FOLDER_ID")) d v).0 ≡ none
          → (drive : DriveClient W) × (files : List DriveFile) × (at_drive : W) × (listed : W)
            × (out.new_drive w ≡ (ok drive, at_drive))
            × (drive.list_files (getenv (codes "DRIVE_FOLDER_ID")) at_drive ≡ (ok files, listed))
            × Connected files listed (with_drive out (getenv (codes "DRIVE_FOLDER_ID")) d v).1
      connected (err e) v same h = unfold with_drive in cc
      connected (ok drive) v same h =
          unfold with_drive in
          let list = drive.list_files (getenv (codes "DRIVE_FOLDER_ID")) v in
          let (files, e, c) = with_files-Connected list.0 list.1 h in
          (drive, files, v, list.1, same, pair_of list e, c)
