-- ===== src/Domain.antt =====
-- internal/domain/file.go. `SyncStatus` is a string type; a time is a number.
use go_drive_etl.Common.{ℕ, Text, codes}

abbrev pub SyncStatus : Type 0
SyncStatus = Text

abbrev pub status_pending : SyncStatus
status_pending = codes "pending"

abbrev pub status_done : SyncStatus
status_done = codes "done"

abbrev pub status_failed : SyncStatus
status_failed = codes "failed"

pub record File : Type 0 where
  pub drive_file_id : Text
  pub path : Text
  pub checksum : Text
  pub mime_type : Text
  pub sync_status : SyncStatus
  pub updated_at : ℕ
