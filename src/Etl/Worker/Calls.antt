-- ===== src/Etl/Worker/Calls.antt =====
-- The calls that the body of the loop in internal/etl/worker_pool.go makes for a file: what holds
-- of each of them, whatever the services reply.

use go_drive_etl.Common.{
  ℕ, zero, suc, none, some, Text, codes, List, Option, Error, Result, ok, err, inl, inr, not, ◌||◌,
  ◌==◌, Bool-cases, ◌+◌, ◌∷◌, [],
}
use go_drive_etl.Domain.{File, SyncStatus}
use go_drive_etl.Retro.{SprintPolicy}
use go_drive_etl.Markdown
use go_drive_etl.Etl.Program.{
  Op, download, download_workspace, context_err, insert_rows, wait, update_status, read_clock,
  add_failed, add_failed_update, Row, ◌>>=◌, AllCalls, AllCalls-bind,
}
use go_drive_etl.Etl.Rows.{chunk_rows, file_row}
use go_drive_etl.Etl.Retry.{insert_loop, is_retryable, max_attempts, insert_rows_with_retry}
use go_drive_etl.Etl.Worker.{
  fail_file, give_up, is_markdown, mark_done, load_metadata, load_chunks, load_content,
  process_file, document_of, workspace_export_mime_type, fetch_as, load_parsed,
}

-- What permits the calls for a file.
pub record Permits (P : Op → Type 0) (hash : Text → Text) (policy : SprintPolicy) (file : File)
    : Type 0 where
  pub downloads : (id : Text) → P (download id)
  pub exports : (id mime_type : Text) → P (download_workspace id mime_type)
  pub context : P context_err
  pub waits : (delay : ℕ) → P (wait delay)
  pub clock : P read_clock
  pub counts : P add_failed
  pub counts_update : P add_failed_update
  pub updates : (status : SyncStatus) → P (update_status file.drive_file_id status)
  pub chunks :
      (content : Text) (t : ℕ) (chunks : List Text)
      → P (
          insert_rows (codes "chunks") (chunk_rows (document_of hash policy file content t) chunks))
  pub metadata : (t : ℕ) → P (insert_rows (codes "drive_files") (file_row file t ∷ []))

pub insert_loop-AllCalls :
    (P : Op → Type 0) (table : Text) (rows : List Row) (context : P context_err)
    (waits : (delay : ℕ) → P (wait delay)) (inserts : P (insert_rows table rows))
    (rounds attempt : ℕ) (last : Option Error)
    → AllCalls P (insert_loop rounds attempt table rows last)
unfolding insert_loop
insert_loop-AllCalls P table rows context waits inserts zero attempt last = tt
insert_loop-AllCalls P table rows context waits inserts (suc rounds) attempt last = (
  context,
  elim [
    | some e ↦ tt
    | none ↦ (
      inserts,
      elim [
        | none ↦ tt
        | some e ↦ elim (Bool-cases (not (is_retryable e) || attempt == max_attempts)) [
          | inl over ↦ rw over tt
          | inr again ↦ rw again (
            waits _,
            elim [
              | some w ↦ tt
              | none ↦
                  insert_loop-AllCalls P table rows context waits inserts rounds (attempt + 1)
                    (some e)
            ],
          )
        ]
      ],
    )
  ],
)

module _ (P : Op → Type 0) (hash : Text → Text) (policy : SprintPolicy) (file : File)
    (p : Permits P hash policy file) where
  fail_file-AllCalls : AllCalls P (fail_file file)
  unfolding fail_file
  fail_file-AllCalls =
      (p.counts, λ _. (p.updates _, elim [ none ↦ tt | some e ↦ (p.counts_update, λ _. tt) ]))

  give_up-AllCalls : AllCalls P (give_up file)
  unfolding give_up
  give_up-AllCalls = (p.context, elim [ none ↦ fail_file-AllCalls | some e ↦ tt ])

  load_metadata-AllCalls : AllCalls P (load_metadata file)
  unfolding load_metadata mark_done
  load_metadata-AllCalls = (
    p.clock,
    λ t. (
      p.metadata t,
      elim [
        | none ↦
            (p.updates _, elim [ none ↦ tt | some e ↦ (p.counts, λ _. (p.counts_update, λ _. tt)) ])
        | some e ↦ give_up-AllCalls
      ],
    ),
  )

  load_chunks-AllCalls :
      (content : Text) (chunks : List Text)
      → AllCalls P (load_chunks hash policy file content chunks)
  unfolding load_chunks insert_rows_with_retry
  load_chunks-AllCalls content chunks = (
    p.clock,
    λ t.
        let rows = chunk_rows (document_of hash policy file content t) chunks in
        AllCalls-bind P (insert_loop 3 1 (codes "chunks") rows none) _
          (insert_loop-AllCalls P (codes "chunks") rows p.context p.waits
            (p.chunks content t chunks) 3 1 none)
          (elim [ none ↦ load_metadata-AllCalls | some e ↦ give_up-AllCalls ]),
  )

  load_content-AllCalls : (r : Result Text) → AllCalls P (load_content hash policy file r)
  unfolding load_content load_parsed
  load_content-AllCalls (err e) = give_up-AllCalls
  load_content-AllCalls (ok content) = elim (Bool-cases (is_markdown file)) [
    | inl md ↦ rw md (parsed (Markdown.parse (ok content)))
    | inr plain ↦ rw plain load_metadata-AllCalls
  ]
    where
      parsed : (r : Result (List Text)) → AllCalls P (load_parsed hash policy file content r)
      parsed (ok chunks) = load_chunks-AllCalls content chunks
      parsed (err e) = fail_file-AllCalls

  -- The body for a file makes only calls that are permitted.
  pub process_file-AllCalls : AllCalls P (process_file hash policy file)
  unfolding process_file fetch_as
  process_file-AllCalls = fetched (workspace_export_mime_type file.mime_type)
    where
      fetched :
          (o : Option Text)
          → AllCalls P (fetch_as file o >>= λ result. load_content hash policy file result)
      fetched none = (p.downloads _, λ r. load_content-AllCalls r)
      fetched (some t) = (p.exports _ _, λ r. load_content-AllCalls r)
