-- ===== src/Monitoring/Tests.antt =====
-- The theorem on reports at an error of the load.
use go_drive_etl.Common.{message, codes, Error}
use go_drive_etl.Monitoring.{RunMetadata, with_stage}

abbrev secret : Error
secret = with_stage (codes "load") (message (codes "token abc refused"))

abbrev metadata : RunMetadata
metadata = record { environment = codes "local"; release = codes "unknown"; load_id = codes "0f" }
