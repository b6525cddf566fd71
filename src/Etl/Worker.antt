-- ===== src/Etl/Worker.antt =====
-- What a worker of internal/etl/worker_pool.go does with one file: the body of the loop in `Run`,
-- from the download to the status. The hash (SHA-256, in hexadecimal) and the sprint policy are
-- arguments.
pub mod Accounting
pub mod Calls
pub mod Statuses
pub mod Loads
use go_drive_etl.Common.{
  ℕ, zero, suc, none, some, true, false, [], ◌∷◌, Text, codes, Bool, List, Option, Result,
  if◌then◌else◌, ok, err, text_eq,
}
use go_drive_etl.Domain.{File, status_done, status_failed}
use go_drive_etl.Retro.{SprintPolicy, extract_retro_label, period}
use go_drive_etl.Markdown
use go_drive_etl.Etl.Program.{
  Op, Reply, Prog, ret, perform, download, download_workspace, context_err, insert_rows, wait,
  update_status, read_clock, add_failed, add_failed_update, ◌>>=◌, ◌>>◌,
}
use go_drive_etl.Etl.Rows.{Document, chunk_rows, file_row}
use go_drive_etl.Etl.Retry.{insert_rows_with_retry}

-- How the loop goes on: `return`, or the next file, this one having failed or not.
pub data Outcome : Type 0 where
  stopped failed completed : Outcome

-- `workspaceExportMimeTypes[mimeType]`.
unfoldable pub workspace_export_mime_type : Text → Option Text
workspace_export_mime_type mime_type =
    if text_eq mime_type (codes "application/vnd.google-apps.document")
    then some (codes "text/plain")
    else if text_eq mime_type (codes "application/vnd.google-apps.spreadsheet")
    then some (codes "text/csv")
    else if text_eq mime_type (codes "application/vnd.google-apps.presentation")
    then some (codes "application/pdf")
    else none

-- The download, or the export where the type has one.
unfoldable pub fetch_as : File → Option Text → Prog (Result Text)
fetch_as file (some export_mime_type) =
    perform (download_workspace file.drive_file_id export_mime_type)
fetch_as file none = perform (download file.drive_file_id)

-- The closure `markFailed`.
unfoldable pub mark_failed : File → Prog (Unit {0})
mark_failed file = do
  perform add_failed
  result ← perform (update_status file.drive_file_id status_failed)
  elim result [ none ↦ ret tt | some e ↦ perform add_failed_update ]

-- `markFailed(…); continue`.
unfoldable pub fail_file : File → Prog Outcome
unfolding mark_failed
fail_file file = do mark_failed file; ret failed

-- `if ctx.Err() != nil { return }; markFailed(…); continue`.
unfoldable pub give_up : File → Prog Outcome
unfolding fail_file
give_up file = do
  result ← perform context_err
  elim result [ some e ↦ ret stopped | none ↦ fail_file file ]

-- `if err := repo.UpdateStatus(…, SyncStatusDone); err != nil { … }`.
unfoldable pub mark_done : File → Prog Outcome
mark_done file = do
  result ← perform (update_status file.drive_file_id status_done)
  elim result [
    | none ↦ ret completed
    | some e ↦ do perform add_failed; perform add_failed_update; ret failed
  ]

unfoldable pub load_metadata : File → Prog Outcome
unfolding give_up mark_done
load_metadata file = do
  t ← perform read_clock
  result ← perform (insert_rows (codes "drive_files") (file_row file t ∷ []))
  elim result [ none ↦ mark_done file | some e ↦ give_up file ]

abbrev pub is_markdown : File → Bool
is_markdown file = text_eq file.mime_type (codes "text/markdown")

module _ (hash : Text → Text) (policy : SprintPolicy) where
  unfoldable pub document_of : File → Text → ℕ → Document
  document_of file content t =
      let label = extract_retro_label content in
      record {
        file = file;
        label = label;
        period = period policy label;
        content_version = hash content;
        ingested_at = t;
      }

  unfoldable pub load_chunks : File → Text → List Text → Prog Outcome
  unfolding load_metadata
  load_chunks file content chunks = do
    t ← perform read_clock
    result ←
        insert_rows_with_retry (codes "chunks") (chunk_rows (document_of file content t) chunks)
    elim result [ none ↦ load_metadata file | some e ↦ give_up file ]

  -- From the result of `markdownParser.Parse` on.
  unfoldable pub load_parsed : File → Text → Result (List Text) → Prog Outcome
  unfolding load_chunks
  load_parsed file content (ok chunks) = load_chunks file content chunks
  load_parsed file content (err e) = fail_file file

  -- From the result of the download on.
  unfoldable pub load_content : File → Result Text → Prog Outcome
  load_content file (err e) = give_up file
  load_content file (ok content) =
      if is_markdown file
      then load_parsed file content (Markdown.parse (ok content))
      else load_metadata file

  unfoldable pub process_file : File → Prog Outcome
  unfolding fetch_as
  process_file file = fetch_as file (workspace_export_mime_type file.mime_type) >>= λ result.
      load_content file result
