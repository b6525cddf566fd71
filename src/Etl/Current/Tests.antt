-- ===== src/Etl/Current/Tests.antt =====
-- A Markdown file of which an earlier version is shown, loaded by a worker of
-- internal/etl/worker_pool.go with an ambiguous error.
use mathlib.Core.Option
use go_drive_etl.Common.{
  none, some, false, true, [], ◌∷◌, ok, Text, codes, List, if◌then◌else◌, text_eq, ◌==◌, ◌≡◌, refl,
  arith, All, length, api_error, as_api_error, is_canceled, is_deadline_exceeded, split, join,
  trim_space, trim_left, trim_right,
}
use go_drive_etl.Domain.{File, status_pending}
use go_drive_etl.Retro.{SprintPolicy}
use go_drive_etl.Markdown.{parse, is_heading, replace_crlf, section_loop, flush, split_long_chunk}
use go_drive_etl.Etl.Rows.{Document}
use go_drive_etl.Etl.Retry.{insert_rows_with_retry, insert_loop, is_retryable}
use go_drive_etl.Etl.Worker.{
  completed, process_file, fetch_as, workspace_export_mime_type, load_content, load_parsed,
  load_chunks, load_metadata, mark_done, document_of,
}
use go_drive_etl.Etl.Current.{Chunk, current}
use go_drive_etl.Etl.Current.Reload.{IsOlder}
use go_drive_etl.Etl.Current.Loaded.{loaded, get_elem?, shown_chunk}
use go_drive_etl.Etl.Current.Retries.{Service}
use go_drive_etl.Etl.Current.Completed.{processed, process_file-Shown}

abbrev note : Text
note = codes "one\n# Two"

abbrev notes : List Text
notes = codes "one" ∷ codes "# Two" ∷ []

abbrev retro : File
retro = record {
  drive_file_id = codes "id-1";
  path = codes "retro.md";
  checksum = codes "c1";
  mime_type = codes "text/markdown";
  sync_status = status_pending;
  updated_at = 0;
}

abbrev policy : SprintPolicy
policy = record { from_month = codes "2026-09" }

abbrev hash : Text → Text
hash s = s

abbrev noted : Document
noted = document_of hash policy retro note 5

-- The first load job appends its rows and is reported as failed, all others are reported as done.
abbrev ambiguous : Service
ambiguous = record {
  answer = λ n. if n == 0 then some (api_error 503 (codes "unavailable")) else none;
  appends = λ n. true;
  stopped = λ n. none;
  interrupted = λ n. none;
  updated = λ n. none;
  now = λ n. 5;
  content = ok note;
  reliable = λ n h. refl;
}

abbrev earlier : List Chunk
earlier =
    record {
      file_id = codes "id-1";
      chunk_index = 4;
      content_version = some (codes "aa");
      ingested_at = some 3;
      is_deleted = some false;
      row = [];
    }
    ∷ []

earlier-IsOlder : All (IsOlder (codes "id-1") note 5 (length (loaded noted notes))) earlier
earlier-IsOlder = ((λ own. (omega arith, λ same. cc)), tt)

parse-note : parse (ok note) ≡ ok notes
unfolding parse is_heading replace_crlf section_loop flush split_long_chunk split join trim_space
    trim_left trim_right
parse-note = refl

is_completed : (processed ambiguous hash policy retro earlier).0 ≡ completed
unfolding process_file fetch_as workspace_export_mime_type load_content load_parsed load_chunks
    load_metadata mark_done insert_rows_with_retry insert_loop is_retryable as_api_error is_canceled
    is_deadline_exceeded parse is_heading replace_crlf section_loop flush split_long_chunk split
    join trim_space trim_left trim_right
is_completed = refl

process_file-Shown_example :
    current ((processed ambiguous hash policy retro earlier).1).chunks (codes "id-1") 1 ≡ (
      if text_eq (codes "id-1") (codes "id-1")
      then Option.map (shown_chunk noted 1) (get_elem? notes 1)
      else current earlier (codes "id-1") 1)
process_file-Shown_example =
    process_file-Shown ambiguous hash policy retro note notes earlier (codes "id-1") 1 refl refl
      parse-note (omega arith) earlier-IsOlder is_completed
