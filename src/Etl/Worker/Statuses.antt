-- ===== src/Etl/Worker/Statuses.antt =====
-- What the body of the loop in internal/etl/worker_pool.go makes of the statuses that a state store
-- shows: of the status of its file, by its outcome, and of no other.
use mathlib.Core.Path.{subst}
use go_drive_etl.Common.{
  sym, none, some, true, false, Text, codes, Bool, List, Option, Result, ok, err, if◌then◌else◌,
  text_eq, ◌≡◌, refl, ◌⊎◌, inl, inr, Bool-cases, ◌∙◌,
}
use go_drive_etl.Domain.{File, SyncStatus, status_done, status_failed}
use go_drive_etl.Retro.{SprintPolicy}
use go_drive_etl.Etl.Program.{
  Op, Reply, Prog, ret, call, Checks, Checks-bind, download, download_workspace, context_err,
  insert_rows, wait, update_status, read_clock, add_failed, add_failed_update, ◌>>=◌, AllCalls,
}
use go_drive_etl.Etl.Worker.Calls.{insert_loop-AllCalls, process_file-AllCalls}
use go_drive_etl.Etl.Rows.{chunk_rows}
use go_drive_etl.Etl.Retry.{insert_loop, insert_rows_with_retry}
use go_drive_etl.Etl.Worker.{
  Outcome, stopped, failed, completed, fail_file, give_up, is_markdown, mark_done, load_metadata,
  load_chunks, load_content, process_file, document_of, workspace_export_mime_type, fetch_as,
  load_parsed,
}

-- What a store shows of the statuses of its files.
abbrev pub Statuses : Type 0
Statuses = Text → Option SyncStatus

-- A status that is set, where there is one.
abbrev pub set_to : SyncStatus → Option SyncStatus → Option SyncStatus
set_to status none = none
set_to status (some old) = some status

-- What a call leaves of the status under one ID, by its reply: a store that takes a status sets it,
-- and one that returns an error leaves it.
abbrev pub track : Text → Option SyncStatus → (o : Op) → Reply o → Option SyncStatus
track key old (update_status id status) none = if text_eq id key then set_to status old else old
track key old (update_status id status) (some e) = old
track key old (download id) r = old
track key old (download_workspace id mime_type) r = old
track key old context_err r = old
track key old (insert_rows table rows) r = old
track key old (wait delay) r = old
track key old read_clock r = old
track key old add_failed r = old
track key old add_failed_update r = old

-- Whether a call may touch the status under the ID.
abbrev pub touches : Text → Op → Bool
touches key (update_status id status) = text_eq id key
touches key _ = false

-- A program none of whose calls does, whatever the replies.
abbrev pub Avoids : {A : Type 0} → Text → Prog A → Type 0
Avoids key p = AllCalls (λ o. touches key o ≡ false) p

-- What an outcome says of the status, where it was `old` before.
abbrev pub Ends : Option SyncStatus → Option SyncStatus → Outcome → Type 0
Ends old now completed = now ≡ set_to status_done old
Ends old now failed = (now ≡ set_to status_failed old) ⊎ (now ≡ old)
Ends old now stopped = now ≡ old

pub track-untouched :
    (key : Text) (old : Option SyncStatus) (o : Op) (r : Reply o)
    → touches key o ≡ false
    → track key old o r ≡ old
track-untouched key old (update_status id status) none h = rw h
track-untouched key old (update_status id status) (some e) h = refl
track-untouched key old (download id) r h = refl
track-untouched key old (download_workspace id mime_type) r h = refl
track-untouched key old context_err r h = refl
track-untouched key old (insert_rows table rows) r h = refl
track-untouched key old (wait delay) r h = refl
track-untouched key old read_clock r h = refl
track-untouched key old add_failed r h = refl
track-untouched key old add_failed_update r h = refl

-- A program that avoids an ID leaves its status as it is.
Avoids-track :
    {A : Type 0} (key : Text) (old now : Option SyncStatus) (p : Prog A)
    → now ≡ old
    → Avoids key p
    → Checks (track key) (λ x a. x ≡ old) now p
Avoids-track key old now (ret a) e h = e
Avoids-track key old now (call o k) e (h, rest) =
    λ r. Avoids-track key old (track key now o r) (k r) (track-untouched key now o r h ∙ e) (rest r)

-- The body for a file touches no other file's status.
pub process_file-Avoids :
    (file : File) (key : Text)
    → text_eq file.drive_file_id key ≡ false
    → (hash : Text → Text) (policy : SprintPolicy) → Avoids key (process_file hash policy file)
process_file-Avoids file key other hash policy =
    process_file-AllCalls (λ o. touches key o ≡ false) hash policy file
      record {
        downloads = λ id. refl;
        exports = λ id mime_type. refl;
        context = refl;
        waits = λ delay. refl;
        clock = refl;
        counts = refl;
        counts_update = refl;
        updates = λ status. other;
        chunks = λ content t chunks. refl;
        metadata = λ t. refl;
      }

module _ (file : File) (key : Text) (own : text_eq file.drive_file_id key ≡ true)
    (old : Option SyncStatus) where
  fail_file-Ends : Checks (track key) (Ends old) old (fail_file file)
  unfolding fail_file
  fail_file-Ends = λ _. elim [ none ↦ inl (rw own refl) | some e ↦ λ _. inr refl ]

  give_up-Ends : Checks (track key) (Ends old) old (give_up file)
  unfolding give_up
  give_up-Ends = elim [ none ↦ fail_file-Ends | some e ↦ refl ]

  load_metadata-Ends : Checks (track key) (Ends old) old (load_metadata file)
  unfolding load_metadata mark_done
  load_metadata-Ends = λ t. elim [
    | none ↦ elim [ none ↦ rw own refl | some e ↦ λ _ _. inr refl ]
    | some e ↦ give_up-Ends
  ]

  module _ (hash : Text → Text) (policy : SprintPolicy) where
    load_chunks-Ends :
        (content : Text) (chunks : List Text)
        → Checks (track key) (Ends old) old (load_chunks hash policy file content chunks)
    unfolding load_chunks insert_rows_with_retry
    load_chunks-Ends content chunks = λ t.
        Checks-bind (track key) (λ x a. x ≡ old) (Ends old) old
          (insert_loop 3 1 (codes "chunks")
            (chunk_rows (document_of hash policy file content t) chunks) none)
          _
          (Avoids-track key old old
            (insert_loop 3 1 (codes "chunks")
              (chunk_rows (document_of hash policy file content t) chunks) none)
            refl
            (insert_loop-AllCalls (λ o. touches key o ≡ false) (codes "chunks")
              (chunk_rows (document_of hash policy file content t) chunks) refl (λ delay. refl) refl
              3 1 none))
          (λ now. elim [
            | none ↦ λ e.
                subst (λ x. Checks (track key) (Ends old) x (load_metadata file)) (sym e)
                  load_metadata-Ends
            | some w ↦ λ e.
                subst (λ x. Checks (track key) (Ends old) x (give_up file)) (sym e) give_up-Ends
          ])

    load_parsed-Ends :
        (content : Text) (r : Result (List Text))
        → Checks (track key) (Ends old) old (load_parsed hash policy file content r)
    unfolding load_parsed
    load_parsed-Ends content (ok chunks) = load_chunks-Ends content chunks
    load_parsed-Ends content (err e) = fail_file-Ends

    load_content-Ends :
        (r : Result Text) → Checks (track key) (Ends old) old (load_content hash policy file r)
    unfolding load_content
    load_content-Ends (err e) = give_up-Ends
    load_content-Ends (ok content) = elim (Bool-cases (is_markdown file)) [
      | inl md ↦ rw md (load_parsed-Ends content _)
      | inr plain ↦ rw plain load_metadata-Ends
    ]

    -- The body for a file ends with the status that its outcome says.
    pub process_file-Ends : Checks (track key) (Ends old) old (process_file hash policy file)
    unfolding process_file fetch_as
    process_file-Ends = fetched (workspace_export_mime_type file.mime_type)
      where
        fetched :
            (o : Option Text)
            → Checks
                (track key)
                (Ends old)
                old
                (fetch_as file o >>= λ result. load_content hash policy file result)
        fetched none = λ r. load_content-Ends r
        fetched (some t) = λ r. load_content-Ends r
