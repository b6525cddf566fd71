-- ===== src/Etl/Current/Completed.antt =====
-- What the view `chunks_current` of iac/bigquery.tf shows of a Markdown file that a worker of
-- internal/etl/worker_pool.go completed.
use mathlib.Core.Option
use go_drive_etl.Common.{
  ℕ, none, some, true, ok, Text, codes, Bool, List, Option, Error, if◌then◌else◌, text_eq,
  text_eq_iff, ◌++◌, ◌^◌, ◌≡◌, ◌≢◌, ◌≤◌, refl, ap, sym, ◌∙◌, All, length, map,
}
use go_drive_etl.Domain.{File}
use go_drive_etl.Retro.{SprintPolicy}
use go_drive_etl.Markdown
use go_drive_etl.Etl.Program.{Op, Reply, Prog, ret, call, exec, AllCalls, ◌>>=◌, Row}
use go_drive_etl.Etl.Retry.{insert_rows_with_retry}
use go_drive_etl.Etl.Rows.{chunk_rows}
use go_drive_etl.Etl.Worker.{
  Outcome, completed, give_up, fail_file, mark_done, load_metadata, load_chunks, load_parsed,
  load_content, process_file, document_of, is_markdown, workspace_export_mime_type, fetch_as,
}
use go_drive_etl.Etl.Current.{Chunk, current, chunk_of}
use go_drive_etl.Etl.Current.Best.{repeated}
use go_drive_etl.Etl.Current.Reload.{IsOlder}
use go_drive_etl.Etl.Current.Loaded.{get_elem?, loaded, shown_chunk}
use go_drive_etl.Etl.Current.Shown.{reload-Shown}
use go_drive_etl.Etl.Current.Retries.{
  World, Service, bigquery, begin, Appended, insert_rows_with_retry-Appended, done-repeated,
}
use go_drive_etl.Markdown

exec-bind :
    {W A B : Type 0} (h : (o : Op) → W → Reply o × W) (p : Prog A) (f : A → Prog B) (w : W)
    → exec h (p >>= f) w ≡ exec h (f (exec h p w).0) (exec h p w).1
exec-bind h (ret a) f w = refl
exec-bind h (call o k) f w = exec-bind h (k (h o w).0) f (h o w).1

module _ (s : Service) where
  -- A call that leaves the rows of `chunks` as they are.
  abbrev Leaves : Op → Type 0
  Leaves o = (w : World) → ((bigquery s o w).1).chunks ≡ w.chunks

  Leaves-exec :
      {A : Type 0} (p : Prog A) (w : World)
      → AllCalls Leaves p
      → ((exec (bigquery s) p w).1).chunks ≡ w.chunks
  Leaves-exec (ret a) w h = refl
  Leaves-exec (call o k) w (h, rest) =
      Leaves-exec (k (bigquery s o w).0) (bigquery s o w).1 (rest (bigquery s o w).0) ∙ h w

  give_up-Leaves : (file : File) → AllCalls Leaves (give_up file)
  unfolding give_up fail_file
  give_up-Leaves file = (
    (λ w. refl),
    elim [
      | some e ↦ tt
      | none ↦
          ((λ w. refl), λ _. ((λ w. refl), elim [ none ↦ tt | some e ↦ ((λ w. refl), λ _. tt) ]))
    ],
  )

  load_metadata-Leaves : (file : File) → AllCalls Leaves (load_metadata file)
  unfolding load_metadata mark_done
  load_metadata-Leaves file = (
    (λ w. refl),
    λ t. (
      (λ w. refl),
      elim [
        | none ↦
            ((λ w. refl), elim [ none ↦ tt | some e ↦ ((λ w. refl), λ _. ((λ w. refl), λ _. tt)) ])
        | some e ↦ give_up-Leaves file
      ],
    ),
  )

-- A file that is given up is not completed.
abbrev NotCompleted : Prog Outcome → Type 0
NotCompleted (ret a) = a ≢ completed
NotCompleted (call o k) = (r : Reply o) → NotCompleted (k r)

NotCompleted-exec :
    {W : Type 0} (h : (o : Op) → W → Reply o × W) (p : Prog Outcome) (w : W)
    → NotCompleted p
    → (exec h p w).0 ≢ completed
NotCompleted-exec h (ret a) w n = n
NotCompleted-exec h (call o k) w n = NotCompleted-exec h (k (h o w).0) (h o w).1 (n (h o w).0)

give_up-NotCompleted : (file : File) → NotCompleted (give_up file)
unfolding give_up fail_file
give_up-NotCompleted file = elim [
  | some e ↦ λ x. cc
  | none ↦ λ _. elim [ none ↦ λ x. cc | some e ↦ λ _ x. cc ]
]

module _ (s : Service) (hash : Text → Text) (policy : SprintPolicy) (file : File) where
  -- The body for a file on a table.
  abbrev pub processed : List Chunk → Outcome × World
  processed old = exec (bigquery s) (process_file hash policy file) (begin old)

  -- From the result of the load of the chunks on.
  after_insert : Option Error → Prog Outcome
  after_insert none = load_metadata file
  after_insert (some e) = give_up file

  after_insert-completed :
      (rows : List Row) (old : List Chunk) (x : Option Error × World)
      → Appended s rows old x
      → (exec (bigquery s) (after_insert x.0) x.1).0 ≡ completed
      → (n : ℕ) × (((exec (bigquery s) (after_insert x.0) x.1).1).chunks
          ≡ old ++ repeated n (map chunk_of rows))
  unfolding after_insert
  after_insert-completed rows old (some e, w) a done =
      absurd (NotCompleted-exec (bigquery s) (give_up file) w (give_up-NotCompleted file) done)
  after_insert-completed rows old (none, w) a done =
      let (n, e) = done-repeated s rows old (none, w) a refl in
      (n, Leaves-exec s (load_metadata file) w (load_metadata-Leaves s file) ∙ e)

  load_chunks-after_insert :
      (content : Text) (chunks : List Text) (old : List Chunk)
      → (let rows = chunk_rows (document_of hash policy file content (s.now 0)) chunks in
          let x = exec (bigquery s) (insert_rows_with_retry (codes "chunks") rows) (begin old) in
          exec (bigquery s) (load_chunks hash policy file content chunks) (begin old)
          ≡ exec (bigquery s) (after_insert x.0) x.1)
  unfolding load_chunks after_insert
  load_chunks-after_insert content chunks old =
      let rows = chunk_rows (document_of hash policy file content (s.now 0)) chunks in
      let p = insert_rows_with_retry (codes "chunks") rows in
      exec-bind (bigquery s) p
        (λ result. elim result [ none ↦ load_metadata file | some e ↦ give_up file ]) (begin old)
      ∙ ap (λ (q : Prog Outcome). exec (bigquery s) q (exec (bigquery s) p (begin old)).1)
          (same (exec (bigquery s) p (begin old)).0)
    where
      same :
          (r : Option Error)
          → (elim r [ none ↦ load_metadata file | some e ↦ give_up file ]) ≡ after_insert r
      same none = refl
      same (some e) = refl

  no_export : is_markdown file ≡ true → workspace_export_mime_type file.mime_type ≡ none
  unfolding workspace_export_mime_type
  no_export md = rw ((text_eq_iff file.mime_type (codes "text/markdown")).0 md) refl

  process_file-load_chunks :
      (content : Text) (chunks : List Text) (old : List Chunk)
      → is_markdown file ≡ true
      → s.content ≡ ok content
      → Markdown.parse (ok content) ≡ ok chunks
      → processed old ≡ exec (bigquery s) (load_chunks hash policy file content chunks) (begin old)
  unfolding process_file fetch_as load_content load_parsed
  process_file-load_chunks content chunks old md got parsed =
      ap
        (λ o.
          exec (bigquery s) (fetch_as file o >>= λ r. load_content hash policy file r) (begin old))
        (no_export md)
      ∙ ap (λ r. exec (bigquery s) (load_content hash policy file r) (begin old)) got
      ∙ ap
          (λ (b : Bool).
            exec (bigquery s)
              (if b
                then load_parsed hash policy file content (Markdown.parse (ok content))
                else load_metadata file)
              (begin old))
          md
      ∙ ap (λ r. exec (bigquery s) (load_parsed hash policy file content r) (begin old)) parsed

-- Where the body of the loop completes a Markdown file whose content it gets and parses into at
-- most 2^31 chunks, over a BigQuery that appends the rows of each job that it reports as done and
-- may or may not append those of a job that it reports as failed: if the rows of the file before
-- were older, and none of this version had an index that is not loaded again, the view then shows
-- of the file one row for each of the chunks, in its place, and nothing else, and of each other
-- file what it showed before.
pub process_file-Shown :
    (s : Service) (hash : Text → Text) (policy : SprintPolicy) (file : File) (content : Text)
    (chunks : List Text) (old : List Chunk) (id : Text) (index : ℕ)
    → is_markdown file ≡ true
    → s.content ≡ ok content
    → Markdown.parse (ok content) ≡ ok chunks
    → length chunks ≤ 2 ^ 31
    → All
        (IsOlder file.drive_file_id
          (hash content)
          (s.now 0)
          (length (loaded (document_of hash policy file content (s.now 0)) chunks)))
        old
    → (processed s hash policy file old).0 ≡ completed
    → current ((processed s hash policy file old).1).chunks id index ≡ (
        if text_eq file.drive_file_id id
        then Option.map
            (shown_chunk (document_of hash policy file content (s.now 0)) index)
            (get_elem? chunks index)
        else current old id index)
unfolding loaded document_of
process_file-Shown s hash policy file content chunks old id index md got parsed fits older done =
    let d = document_of hash policy file content (s.now 0) in
    let rows = chunk_rows d chunks in
    let e =
      process_file-load_chunks s hash policy file content chunks old md got parsed
      ∙ load_chunks-after_insert s hash policy file content chunks old in
    let (n, f) =
      after_insert-completed s hash policy file rows old
        (exec (bigquery s) (insert_rows_with_retry (codes "chunks") rows) (begin old))
        (insert_rows_with_retry-Appended s rows (begin old)) (ap (λ x. x.0) (sym e) ∙ done) in
    ap (λ x. current x id index) (ap (λ x. (x.1).chunks) e ∙ f)
    ∙ reload-Shown d chunks old n id index fits older
