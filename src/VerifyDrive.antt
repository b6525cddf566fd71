-- ===== src/VerifyDrive.antt =====
-- cmd/verify_drive/main.go: `run`, over a state `W` of the outside world. What constructs a
-- client is an argument, and so is the clock. What is printed is left out.
pub mod Steps
mod Tests
use go_drive_etl.Common.{
  none, some, [], ◌∷◌, ok, err, Text, codes, Error, Option, List, Result, wrapped, ℕ,
}
use go_drive_etl.Domain.{File, status_pending}
use go_drive_etl.Services.{DriveClient, DriveFile}
use go_drive_etl.Etl.Program.{Row, text, time}
use go_drive_etl.Pipeline.{record_of}

-- The parts of `repository.FileRepo` and of `bq.Client` that the command uses.
pub record FileRepo (W : Type 0) : Type 0 where
  pub upsert : File → W → Option Error × W
  pub list_pending : W → Result (List File) × W

abbrev pub InsertRows : Type 0 → Type 0
InsertRows W = Text → List Row → W → Option Error × W

pub record Outside (W : Type 0) : Type 0 where
  pub new_drive : W → Result (DriveClient W) × W
  pub new_repo : W → Result (FileRepo W) × W
  pub close_repo : W → W
  pub new_bq : W → Result (InsertRows W) × W
  pub close_bq : W → W
  pub now : W → ℕ × W

abbrev pub insert_failed : Option Error → Option Error
insert_failed none = none
insert_failed (some e) = some (wrapped (codes "BigQuery Insert 失敗: ") e)

-- The loop of the registration, which passes over errors.
unfoldable pub upsert_files : {W : Type 0} → FileRepo W → List DriveFile → W → W
upsert_files repo [] w = w
upsert_files repo (file ∷ files) w = upsert_files repo files (repo.upsert (record_of file) w).1

-- The row of a file at a time.
unfoldable pub drive_file_row : DriveFile → ℕ → Row
drive_file_row file now =
    (codes "drive_file_id", text file.id)
    ∷ (codes "path", text file.name)
    ∷ (codes "checksum", text file.md5_checksum)
    ∷ (codes "mime_type", text file.mime_type)
    ∷ (codes "sync_status", text status_pending)
    ∷ (codes "updated_at", time now)
    ∷ []

module _ {W : Type 0} (out : Outside W) where
  -- The loop that makes the rows, each with its own time.
  unfoldable pub rows_of : List DriveFile → W → List Row × W
  rows_of [] w = ([], w)
  rows_of (file ∷ files) w =
      let (t, w') = out.now w in
      let (rows, w'') = rows_of files w' in (drive_file_row file t ∷ rows, w'')

  -- From the BigQuery client on; `defer bqClient.Close()`.
  unfoldable pub with_bq : List DriveFile → Result (InsertRows W) → W → Option Error × W
  unfolding rows_of
  with_bq files (err e) w = (some (wrapped (codes "BigQuery クライアントの初期化に失敗: ") e), w)
  with_bq files (ok insert_rows) w =
      let (rows, w') = rows_of files w in
      let (result, w'') = insert_rows (codes "drive_files") rows w' in
      (insert_failed result, out.close_bq w'')

  -- From the list of the pending files on.
  unfoldable pub with_pending : List DriveFile → Result (List File) → W → Option Error × W
  unfolding with_bq
  with_pending files (err e) w = (some (wrapped (codes "ListPending 失敗: ") e), w)
  with_pending files (ok pending) w = let (bq, w') = out.new_bq w in with_bq files bq w'

  -- From the state store on; `defer closeRepo()`.
  unfoldable pub with_repo : List DriveFile → Result (FileRepo W) → W → Option Error × W
  unfolding with_pending upsert_files
  with_repo files (err e) w = (some (wrapped (codes "リポジトリ初期化に失敗: ") e), w)
  with_repo files (ok repo) w =
      let (pending, w') = repo.list_pending (upsert_files repo files w) in
      let (result, w'') = with_pending files pending w' in (result, out.close_repo w'')

  -- From the list of the folder on.
  unfoldable pub with_files : Result (List DriveFile) → W → Option Error × W
  unfolding with_repo
  with_files (err e) w = (some (wrapped (codes "ファイル一覧の取得に失敗: ") e), w)
  with_files (ok []) w = (none, w)
  with_files (ok (file ∷ files)) w =
      let (repo, w') = out.new_repo w in with_repo (file ∷ files) repo w'

  -- From the Drive client on.
  unfoldable pub with_drive : Text → Result (DriveClient W) → W → Option Error × W
  unfolding with_files
  with_drive folder (err e) w = (some (wrapped (codes "Drive クライアントの初期化に失敗: ") e), w)
  with_drive folder (ok drive) w =
      let (files, w') = drive.list_files folder w in with_files files w'

  unfoldable pub run : (Text → Text) → W → Option Error × W
  unfolding with_drive
  run getenv w =
      let (drive, w') = out.new_drive w in with_drive (getenv (codes "DRIVE_FOLDER_ID")) drive w'

-- The exit code of `main`, by the error of `run`; `log.Fatal` exits with 1.
unfoldable pub main : Option Error → ℕ
main none = 0
main (some e) = 1
