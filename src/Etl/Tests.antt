-- ===== src/Etl/Tests.antt =====
-- The theorems of the worker at one table and one file.

use go_drive_etl.Common.{
  ℕ, none, some, [], ◌∷◌, codes, Option, Error, ◌≡◌, Text, if◌then◌else◌, ◌==◌, api_error, take,
  ◌-◌, Bool, List, ◌↔◌, refl, ok, arith, true, ◌≤◌,
}
use go_drive_etl.Etl.Program.{ret, AllCalls, Checks, exec}
use go_drive_etl.Etl.Worker.{
  completed, fetch_as, load_content, workspace_export_mime_type, load_metadata, mark_done,
  process_file,
}
use go_drive_etl.Etl.Worker.Accounting.{
  Tally, observe, IsAccounted, no_calls, process_file-IsAccounted,
}
use go_drive_etl.Etl.Pool.{
  Worker, idle, busy, gone, Shared, Steps, here, one_more, acts, send, close, work, takes, calls,
  ends, leave, start, five_workers, run_result, counted, next_state,
}
use go_drive_etl.Etl.Pool.Balance.{count, finished_count, failed_count, stopped_count}
use go_drive_etl.Etl.Pool.Conservation.{run-Conserved}
use go_drive_etl.Etl.Pool.Termination.{Completes, run-Completes}
use go_drive_etl.Domain.{status_done, File, status_pending}
use go_drive_etl.Repository.Postgres.{select_pending, list_pending, find}
use go_drive_etl.Repository.Postgres.Rows.{IsKeyed}
use go_drive_etl.Etl.Worker.Statuses.{set_to}
use go_drive_etl.Etl.Worker.Loads.{Loads, process_file-Loads}
use go_drive_etl.Etl.Pool.Followers.{has_id}
use go_drive_etl.Etl.Pool.Stored.{status_of}
use go_drive_etl.Etl.Pool.Marks.{shown, is_listed, run-Marks}
use mathlib.Core.List.Permᴰ
use go_drive_etl.Etl.Pool.Drain.{table_after, processed, run-Drains}
use go_drive_etl.Etl.Rows.{Document, chunk_rows}
use go_drive_etl.Etl.Rows.Content.{AreRowsOf, chunk_rows-AreRowsOf}
use go_drive_etl.Retro.{SprintPolicy}
use go_drive_etl.Etl.Retry.{insert_rows_with_retry}
use go_drive_etl.Etl.Retry.Attempts.{services, attempts, no_jobs, insert_rows_with_retry-attempts}

-- The first load fails with 503, the later ones succeed.
abbrev busy_once : ℕ → Option Error
busy_once n = if n == 1 then some (api_error 503 (codes "busy")) else none

insert_rows_with_retry-attempts_example :
    exec (services busy_once) (insert_rows_with_retry (codes "chunks") []) no_jobs ≡ (
      busy_once (attempts busy_once),
      record {
        loads = attempts busy_once;
        delays = take (attempts busy_once - 1) (1_000_000_000 ∷ 2_000_000_000 ∷ []);
      },
    )
insert_rows_with_retry-attempts_example =
    insert_rows_with_retry-attempts busy_once (codes "chunks") []

abbrev retro : File
retro = record {
  drive_file_id = codes "id-1";
  path = codes "retro.md";
  checksum = codes "c1";
  mime_type = codes "text/markdown";
  sync_status = status_pending;
  updated_at = 0;
}

abbrev policy : SprintPolicy
policy = record { from_month = codes "2026-09" }

process_file-IsAccounted_example :
    Checks (observe retro) (IsAccounted retro) no_calls (process_file (λ s. s) policy retro)
process_file-IsAccounted_example = process_file-IsAccounted (λ s. s) policy retro

-- A file of plain text goes through the pool: it is sent, the channel is closed, the first worker
-- takes it, loads its metadata and marks it done, and all workers return.
abbrev plain : File
plain = record retro { mime_type = codes "text/plain" }

abbrev others : List Worker
others = idle ∷ idle ∷ idle ∷ idle ∷ []

abbrev hash : Text → Text
hash s = s

abbrev at_end : Shared
at_end = record (start []) { closed = true; finished = (plain, completed) ∷ [] }

abbrev five_gone : List Worker
five_gone = gone ∷ gone ∷ gone ∷ gone ∷ gone ∷ []

abbrev Reaches : Shared → List Worker → Type 0
Reaches s ws = Steps hash policy (start (plain ∷ []), five_workers) (s, ws)

taken :
    Reaches
      (record (start []) { closed = true })
      (busy plain no_calls (process_file hash policy plain) ∷ others)
taken =
    one_more
      (one_more (one_more here (acts (send _ _ plain [] refl (omega arith) refl)))
        (acts (close _ _ refl refl)))
      (acts (work _ _ [] others _ _ (takes _ plain [] refl)))

abbrev plain_calls : Tally
plain_calls = record no_calls { file_loads = 1; file_loaded = true; done_calls = 1 }

worked :
    Reaches (record (start []) { closed = true }) (busy plain plain_calls (ret completed) ∷ others)
unfolding process_file fetch_as load_content workspace_export_mime_type load_metadata mark_done
    counted
worked =
    one_more
      (one_more
        (one_more (one_more taken (acts (work _ _ [] others _ _ (calls _ plain _ _ _ (ok []) tt))))
          (acts (work _ _ [] others _ _ (calls _ plain _ _ _ 7 tt))))
        (acts (work _ _ [] others _ _ (calls _ plain _ _ _ none tt))))
      (acts (work _ _ [] others _ _ (calls _ plain _ _ _ none tt)))

ended : Reaches at_end five_gone
unfolding next_state
ended =
    one_more
      (one_more
        (one_more
          (one_more
            (one_more (one_more worked (acts (work _ _ [] others _ _ (ends _ plain _ completed))))
              (acts (work _ _ [] (idle ∷ idle ∷ idle ∷ idle ∷ []) _ _ (leave _ refl refl))))
            (acts (work _ _ (gone ∷ []) (idle ∷ idle ∷ idle ∷ []) _ _ (leave _ refl refl))))
          (acts (work _ _ (gone ∷ gone ∷ []) (idle ∷ idle ∷ []) _ _ (leave _ refl refl))))
        (acts (work _ _ (gone ∷ gone ∷ gone ∷ []) (idle ∷ []) _ _ (leave _ refl refl))))
      (acts (work _ _ (gone ∷ gone ∷ gone ∷ gone ∷ []) [] _ _ (leave _ refl refl)))

run-Conserved_example :
    ((p : File → Bool) → finished_count p at_end.finished ≡ count p (plain ∷ []))
    × (stopped_count at_end.finished ≡ 0)
    × (at_end.failed_files ≡ failed_count at_end.finished)
    × ((run_result at_end ≡ none) ↔ (failed_count at_end.finished ≡ 0))
run-Conserved_example =
    run-Conserved hash policy (plain ∷ []) ended refl (refl, (refl, (refl, (refl, (refl, tt)))))

once : count (has_id (codes "id-1")) (plain ∷ []) ≤ 1
unfolding count
once = omega arith

succeeds : run_result at_end ≡ none
unfolding run_result
succeeds = refl

listed : list_pending (λ rows. rows) none (λ f. none) none (plain ∷ []) ≡ ok (plain ∷ [])
unfolding list_pending
listed = refl

plain-IsKeyed : IsKeyed (plain ∷ [])
unfolding find
plain-IsKeyed = (refl, tt)

run-Marks_example : shown hash policy ended (codes "id-1") (some status_pending) ≡ (
    if is_listed (codes "id-1") (plain ∷ [])
    then set_to status_done (some status_pending)
    else some status_pending)
run-Marks_example =
    run-Marks hash policy (plain ∷ []) (codes "id-1") (some status_pending) once ended
      (refl, (refl, (refl, (refl, (refl, tt))))) succeeds

run-Drains_example :
    (select_pending (table_after hash policy (λ x y step. 9) ended (plain ∷ [])) ≡ [])
    × ((key : Text)
        → status_of (find (table_after hash policy (λ x y step. 9) ended (plain ∷ [])) key)
          ≡ processed (find (plain ∷ []) key))
run-Drains_example =
    run-Drains hash policy (λ x y step. 9) (λ rows. rows) none (λ f. none) none (plain ∷ [])
      (plain ∷ []) ended plain-IsKeyed Permᴰ.refl listed (refl, (refl, (refl, (refl, (refl, tt)))))
      succeeds

process_file-Loads_example : AllCalls Loads (process_file hash policy retro)
process_file-Loads_example = process_file-Loads hash policy retro

run-Completes_example : Completes hash policy (start (plain ∷ retro ∷ []), five_workers)
run-Completes_example = run-Completes hash policy (plain ∷ retro ∷ [])

abbrev labelled : Document
labelled = record {
  file = retro;
  label = some (record { month = codes "2026-11"; sequence = 2 });
  period = none;
  content_version = codes "ab";
  ingested_at = 5;
}

chunk_rows-AreRowsOf_example :
    AreRowsOf labelled
      (codes "one" ∷ codes "two" ∷ [])
      (chunk_rows labelled (codes "one" ∷ codes "two" ∷ []))
chunk_rows-AreRowsOf_example =
    chunk_rows-AreRowsOf labelled (codes "one" ∷ codes "two" ∷ []) (omega arith)
