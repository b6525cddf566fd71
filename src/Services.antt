-- ===== src/Services.antt =====
-- What the commands see of the external services: the values of internal/drive and internal/bq that
-- cross the interfaces, and the interfaces themselves over a state `W` of the outside world, which
-- each call may change.
use go_drive_etl.Common.{Text, Result, Option, Error, List}

-- `driveapi.File`, with the fields that the code reads.
pub record DriveFile : Type 0 where
  pub id : Text
  pub name : Text
  pub mime_type : Text
  pub md5_checksum : Text

-- `drive.DriveClient`.
pub record DriveClient (W : Type 0) : Type 0 where
  pub list_files : Text → W → Result (List DriveFile) × W
  pub download_file : Text → W → Result Text × W
  pub upsert_file : Text → Text → Text → Text → W → Option Error × W

-- `goldreport.Source`, the part of `bq.BQClient` that exports.
pub record Source (W : Type 0) : Type 0 where
  pub export_table_csv : Text → W → Result Text × W
