-- ===== src/Etl/Worker/Accounting.antt =====
-- What the calls of one file add up to, on every run of the body of the loop in
-- internal/etl/worker_pool.go, whatever the services, the clock and the context answer.
use go_drive_etl.Common.{
  ℕ, zero, suc, none, some, true, false, codes, inl, inr, refl, ◌≡◌, arith, ◌≤◌, Bool, Option,
  text_eq, Error, ◌+◌, not, ◌&&◌, ◌||◌, List, ◌≢◌, Bool-cases, ◌==◌, Text, Result, ok, err,
}
use go_drive_etl.Domain.{File, status_done}
use go_drive_etl.Etl.Program.{
  Op, Reply, Checks, download, download_workspace, context_err, insert_rows, wait, update_status,
  read_clock, add_failed, add_failed_update, Row, Checks-bind, ◌>>=◌,
}
use go_drive_etl.Etl.Retry.{insert_loop, is_retryable, max_attempts, insert_rows_with_retry}
use go_drive_etl.Etl.Worker.{
  Outcome, stopped, failed, completed, fail_file, give_up, is_markdown, mark_done, load_metadata,
  SprintPolicy, load_chunks, load_content, process_file, chunk_rows, document_of,
  workspace_export_mime_type, fetch_as, load_parsed,
}

-- The calls so far. `in_order` is lost by a load of the metadata before the chunks of a Markdown
-- file are loaded, and by a `done` before the metadata is loaded.
pub record Tally : Type 0 where
  pub chunk_loads : ℕ
  pub chunks_loaded : Bool
  pub file_loads : ℕ
  pub file_loaded : Bool
  pub done_calls : ℕ
  pub failed_calls : ℕ
  pub failures : ℕ
  pub failed_updates : ℕ
  pub done_refused : Bool
  pub cancelled : Bool
  pub in_order : Bool

abbrev pub no_calls : Tally
no_calls = record {
  chunk_loads = 0;
  chunks_loaded = false;
  file_loads = 0;
  file_loaded = false;
  done_calls = 0;
  failed_calls = 0;
  failures = 0;
  failed_updates = 0;
  done_refused = false;
  cancelled = false;
  in_order = true;
}

abbrev pub succeeded : Option Error → Bool
succeeded none = true
succeeded (some e) = false

module _ (file : File) where
  abbrev pub on_load : Tally → Bool → Bool → Tally
  on_load m true good = record m { chunk_loads = m.chunk_loads + 1; chunks_loaded = good }
  on_load m false good = record m {
    file_loads = m.file_loads + 1;
    file_loaded = good;
    in_order = m.in_order && (not (is_markdown file) || m.chunks_loaded);
  }

  abbrev pub on_status : Tally → Bool → Bool → Tally
  on_status m true good = record m {
    done_calls = m.done_calls + 1;
    done_refused = not good;
    in_order = m.in_order && m.file_loaded;
  }
  on_status m false good = record m { failed_calls = m.failed_calls + 1 }

  abbrev pub observe : Tally → (o : Op) → Reply o → Tally
  observe m (insert_rows table rows) r = on_load m (text_eq table (codes "chunks")) (succeeded r)
  observe m (update_status id status) r = on_status m (text_eq status status_done) (succeeded r)
  observe m add_failed r = record m { failures = m.failures + 1 }
  observe m add_failed_update r = record m { failed_updates = m.failed_updates + 1 }
  observe m context_err r = record m { cancelled = not (succeeded r) }
  observe m (download id) r = m
  observe m (download_workspace id mime_type) r = m
  observe m (wait delay) r = m
  observe m read_clock r = m

  -- A file is completed exactly if all of it was loaded and the store took its status.
  pub record IsAccounted (m : Tally) (o : Outcome) : Type 0 where
    pub ordered : m.in_order ≡ true
    pub chunk_attempts : m.chunk_loads ≤ 3
    pub no_chunks : is_markdown file ≡ false → m.chunk_loads ≡ 0
    pub file_attempts : m.file_loads ≤ 1
    pub when_completed :
        o ≡ completed
        → (m.file_loaded ≡ true)
          × (m.done_calls ≡ 1)
          × (m.done_refused ≡ false)
          × (m.failures ≡ 0)
          × (m.failed_calls ≡ 0)
          × (m.failed_updates ≡ 0)
    pub completed_chunks : o ≡ completed → is_markdown file ≡ true → m.chunks_loaded ≡ true
    pub when_failed :
        o ≡ failed → (m.failures ≡ 1) × (m.failed_calls + m.done_calls ≡ 1) × (m.failed_updates ≤ 1)
    pub when_stopped :
        o ≡ stopped
        → (m.cancelled ≡ true)
          × (m.failures ≡ 0)
          × (m.done_calls ≡ 0)
          × (m.failed_calls ≡ 0)
          × (m.failed_updates ≡ 0)

  -- Before any status was asked for.
  record IsOpen (m : Tally) : Type 0 where
    ordered : m.in_order ≡ true
    chunk_attempts : m.chunk_loads ≤ 3
    no_chunks : is_markdown file ≡ false → m.chunk_loads ≡ 0
    file_attempts : m.file_loads ≤ 1
    no_done : m.done_calls ≡ 0
    no_failed : m.failed_calls ≡ 0
    no_failures : m.failures ≡ 0
    no_failed_updates : m.failed_updates ≡ 0

  fail_file-IsAccounted : (m : Tally) → IsOpen m → Checks observe IsAccounted m (fail_file file)
  unfolding fail_file
  fail_file-IsAccounted m v = λ _. elim [ none ↦ ground arith | some e ↦ λ _. ground arith ]

  IsOpen-cancelled : (m : Tally) (c : Bool) → IsOpen m → IsOpen (record m { cancelled = c })
  IsOpen-cancelled m c v = ground arith

  give_up-IsAccounted : (m : Tally) → IsOpen m → Checks observe IsAccounted m (give_up file)
  unfolding give_up
  give_up-IsAccounted m v = elim [
    | none ↦ fail_file-IsAccounted _ (IsOpen-cancelled m false v)
    | some e ↦ ground arith
  ]

  mark_done-IsAccounted :
      (m : Tally)
      → IsOpen m
      → m.file_loaded ≡ true
      → (is_markdown file ≡ true → m.chunks_loaded ≡ true)
      → Checks observe IsAccounted m (mark_done file)
  unfolding mark_done
  mark_done-IsAccounted m v loaded chunks = elim [
    | none ↦ ground arith
    | some e ↦ λ _ _. ground arith
  ]

  load_metadata-IsAccounted :
      (m : Tally)
      → IsOpen m
      → m.file_loads ≡ 0
      → (is_markdown file ≡ true → m.chunks_loaded ≡ true)
      → Checks observe IsAccounted m (load_metadata file)
  unfolding load_metadata
  load_metadata-IsAccounted m v fresh chunks = λ t. elim [
    | none ↦ mark_done-IsAccounted (on_load m false true) (ground arith) refl chunks
    | some e ↦ give_up-IsAccounted (on_load m false false) (ground arith)
  ]

  -- What the retries leave.
  record IsTried (m : Tally) (result : Option Error) : Type 0 where
    open_still : IsOpen m
    unloaded : m.file_loads ≡ 0
    tried : result ≡ none → m.chunks_loaded ≡ true

  insert_loop-IsTried :
      (rounds attempt : ℕ) (rows : List Row) (last : Option Error) (m : Tally)
      → is_markdown file ≡ true
      → IsOpen m
      → m.file_loads ≡ 0
      → m.chunk_loads + rounds ≤ 3
      → (rounds ≡ 0 → last ≢ none)
      → Checks observe IsTried m (insert_loop rounds attempt (codes "chunks") rows last)
  unfolding insert_loop
  insert_loop-IsTried zero attempt rows last m md v fresh room h = record {
    open_still = v;
    unloaded = fresh;
    tried = λ e. absurd (h refl e);
  }
  insert_loop-IsTried (suc rounds) attempt rows last m md v fresh room h = elim [
    | some e ↦ ground arith
    | none ↦ elim [
      | none ↦ ground arith
      | some e ↦ elim (Bool-cases (not (is_retryable e) || attempt == max_attempts)) [
        | inl over ↦ rw over (ground arith)
        | inr again ↦ rw again (elim [
          | some w ↦ ground arith
          | none ↦
              insert_loop-IsTried rounds (attempt + 1) rows (some e)
                (on_load (record m { cancelled = false }) true false) md (ground arith) fresh
                (omega arith) (λ _. cc)
        ])
      ]
    ]
  ]

module _ (hash : Text → Text) (policy : SprintPolicy) (file : File) where
  load_chunks-IsAccounted :
      (content : Text) (chunks : List Text) (m : Tally)
      → is_markdown file ≡ true
      → IsOpen file m
      → m.file_loads ≡ 0
      → m.chunk_loads ≡ 0
      → Checks (observe file) (IsAccounted file) m (load_chunks hash policy file content chunks)
  unfolding load_chunks insert_rows_with_retry
  load_chunks-IsAccounted content chunks m md v fresh none_yet = λ t.
      Checks-bind (observe file) (IsTried file) (IsAccounted file) m
        (insert_loop 3 1 (codes "chunks")
          (chunk_rows (document_of hash policy file content t) chunks) none)
        _
        (insert_loop-IsTried file 3 1 _ none m md v fresh (omega arith) (λ e. absurd (omega arith)))
        (λ m'. elim [
          | none ↦
              λ w. load_metadata-IsAccounted file m' w.open_still w.unloaded (λ _. w.tried refl)
          | some e ↦ λ w. give_up-IsAccounted file m' w.open_still
        ])

  load_parsed-IsAccounted :
      (content : Text) (r : Result (List Text)) (m : Tally)
      → is_markdown file ≡ true
      → IsOpen file m
      → m.file_loads ≡ 0
      → m.chunk_loads ≡ 0
      → Checks (observe file) (IsAccounted file) m (load_parsed hash policy file content r)
  unfolding load_parsed
  load_parsed-IsAccounted content (ok chunks) m md v fresh none_yet =
      load_chunks-IsAccounted content chunks m md v fresh none_yet
  load_parsed-IsAccounted content (err e) m md v fresh none_yet = fail_file-IsAccounted file m v

  load_content-IsAccounted :
      (r : Result Text) (m : Tally)
      → IsOpen file m
      → m.file_loads ≡ 0
      → m.chunk_loads ≡ 0
      → Checks (observe file) (IsAccounted file) m (load_content hash policy file r)
  unfolding load_content
  load_content-IsAccounted (err e) m v fresh none_yet = give_up-IsAccounted file m v
  load_content-IsAccounted (ok content) m v fresh none_yet = elim (Bool-cases (is_markdown file)) [
    | inl md ↦ rw md (load_parsed-IsAccounted content _ m md v fresh none_yet)
    | inr other ↦ rw other (load_metadata-IsAccounted file m v fresh (λ md. cc))
  ]

  fetch_as-IsAccounted :
      (o : Option Text)
      → Checks
          (observe file)
          (IsAccounted file)
          no_calls
          (fetch_as file o >>= λ result. load_content hash policy file result)
  unfolding fetch_as
  fetch_as-IsAccounted none = λ r. load_content-IsAccounted r no_calls (ground arith) refl refl
  fetch_as-IsAccounted (some t) = λ r. load_content-IsAccounted r no_calls (ground arith) refl refl

  -- On every run of the body for a file, whatever the services answer: the chunks of a Markdown
  -- file are loaded before its metadata, and its metadata before it is marked done; there are at
  -- most three loads of chunks, none for another file, and at most one load of metadata. The file
  -- is completed only if everything was loaded and the store took `done`; it counts as failed
  -- exactly once otherwise, with one attempt to set its status, unless the context was cancelled:
  -- then nothing is counted and no status is set.
  pub process_file-IsAccounted :
      Checks (observe file) (IsAccounted file) no_calls (process_file hash policy file)
  unfolding process_file
  process_file-IsAccounted = fetch_as-IsAccounted (workspace_export_mime_type file.mime_type)
