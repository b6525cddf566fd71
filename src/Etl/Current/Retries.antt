-- ===== src/Etl/Current/Retries.antt =====
-- `insertRowsWithRetry` of internal/etl/worker_pool.go over a BigQuery that may have
-- appended the rows of a load job that it reports as failed.
use go_drive_etl.Common.{
  Result, ◌&&◌, ℕ, zero, suc, none, some, true, false, [], text_eq, Text, codes, Bool, Bool-cases,
  List, Option, Option-cases, Error, if◌then◌else◌, ◌++◌, append-nil, append_assoc, ◌+◌, ◌*◌, ◌-◌,
  ◌^◌, ◌≡◌, ◌≤◌, ◌||◌, ◌==◌, not, inl, inr, refl, arith, ap, sym, ◌∙◌, map,
}
use go_drive_etl.Etl.Program.{
  Op, Reply, Row, exec, download, download_workspace, context_err, insert_rows, wait, update_status,
  ret, perform, ◌>>=◌, read_clock, add_failed, add_failed_update,
}
use go_drive_etl.Etl.Retry.{
  is_retryable, max_attempts, initial_delay, insert_loop, insert_rows_with_retry,
}
use go_drive_etl.Etl.Current.{Chunk, chunk_of}
use go_drive_etl.Etl.Current.Best.{repeated}

-- The load jobs so far, and the rows of `chunks`.
pub record World : Type 0 where
  pub jobs : ℕ
  pub chunks : List Chunk

-- Rows that are appended any number of times.
abbrev pub copies : ℕ → List Chunk → List Chunk
copies zero rows = []
copies (suc n) rows = rows ++ copies n rows

copies-repeated : (n : ℕ) (rows : List Chunk) → copies (suc n) rows ≡ repeated n rows
copies-repeated zero rows = append-nil rows
copies-repeated (suc n) rows = ap (λ x. rows ++ x) (copies-repeated n rows)

-- What the services answer. Of a load job, by its number: the answer, and whether its rows were
-- appended; and behind so many jobs, how the context is seen before a job and in a wait, the
-- answer to an update of a status, and the time. The content is that of the file.
pub record Service : Type 0 where
  pub answer : ℕ → Option Error
  pub appends : ℕ → Bool
  pub stopped : ℕ → Option Error
  pub interrupted : ℕ → Option Error
  pub updated : ℕ → Option Error
  pub now : ℕ → ℕ
  pub content : Result Text
  pub reliable : (n : ℕ) → answer n ≡ none → appends n ≡ true

module _ (s : Service) where
  abbrev pub bigquery : (o : Op) → World → Reply o × World
  bigquery (insert_rows table rows) w = (
    s.answer w.jobs,
    record w {
      jobs = w.jobs + 1;
      chunks =
          if text_eq table (codes "chunks") && s.appends w.jobs
          then w.chunks ++ map chunk_of rows
          else w.chunks;
    },
  )
  bigquery (wait delay) w = (s.interrupted w.jobs, w)
  bigquery context_err w = (s.stopped w.jobs, w)
  bigquery (download id) w = (s.content, w)
  bigquery (download_workspace id mime_type) w = (s.content, w)
  bigquery (update_status id status) w = (s.updated w.jobs, w)
  bigquery read_clock w = (s.now w.jobs, w)
  bigquery add_failed w = (tt, w)
  bigquery add_failed_update w = (tt, w)

  module _ (rows : List Row) where
    -- The rows were appended a number of times, and at least once where the result is no error.
    pub Appended : List Chunk → Option Error × World → Type 0
    Appended old x =
        (n : ℕ) × ((x.1).chunks ≡ old ++ copies n (map chunk_of rows)) × (x.0 ≡ none → 1 ≤ n)

    failed-Appended : (w : World) (e : Error) → Appended w.chunks (some e, w)
    unfolding Appended
    failed-Appended w e = (0, sym (append-nil w.chunks), λ h. cc)

    -- With the rows that a job appends.
    job-Appended :
        (old : List Chunk) (b : Bool) (x : Option Error × World)
        → Appended (if b then old ++ map chunk_of rows else old) x
        → Appended old x
    unfolding Appended
    job-Appended old false x h = h
    job-Appended old true x (n, e, h) = (
      suc n,
      e ∙ append_assoc old (map chunk_of rows) (copies n (map chunk_of rows)),
      λ r. omega arith,
    )

    done-Appended :
        (w w' : World) → w'.chunks ≡ w.chunks ++ map chunk_of rows → Appended w.chunks (none, w')
    unfolding Appended
    done-Appended w w' e =
        (1, e ∙ ap (λ x. w.chunks ++ x) (sym (append-nil (map chunk_of rows))), λ h. omega arith)

    Begun : ℕ → Option Error → Type 0
    Begun zero none = ⊥
    Begun _ _ = Unit

    Begun-some : (rounds : ℕ) (e : Error) → Begun rounds (some e)
    unfolding Begun
    Begun-some zero e = tt
    Begun-some (suc rounds) e = tt

    after : World → World
    after w = record w {
      jobs = w.jobs + 1;
      chunks = if s.appends w.jobs then w.chunks ++ map chunk_of rows else w.chunks;
    }

    -- From an error on.
    failed-again :
        (rounds attempt : ℕ) (x : Error) (w : World)
        → Appended w.chunks
            (exec bigquery (insert_loop rounds (attempt + 1) (codes "chunks") rows (some x)) w)
        → Appended w.chunks (
            exec bigquery
              (if not (is_retryable x) || attempt == max_attempts
                then ret (some x)
                else (perform (wait (initial_delay * 2 ^ (attempt - 1))) >>= λ interrupted.
                    elim interrupted [
                      | some e ↦ ret (some e)
                      | none ↦ insert_loop rounds (attempt + 1) (codes "chunks") rows (some x)
                    ]))
              w)
    failed-again rounds attempt x w h =
        elim (Bool-cases (not (is_retryable x) || attempt == max_attempts)) [
          | inl over ↦ rw over (failed-Appended w x)
          | inr again ↦ rw again (elim (Option-cases (s.interrupted w.jobs)) [
            | inr (y, e) ↦ rw e (failed-Appended w y)
            | inl e ↦ rw e h
          ])
        ]

    insert_loop-Appended :
        (rounds attempt : ℕ) (last : Option Error) (w : World)
        → Begun rounds last
        → Appended w.chunks
            (exec bigquery (insert_loop rounds attempt (codes "chunks") rows last) w)
    unfolding insert_loop Begun after
    insert_loop-Appended zero attempt none w b = absurd b
    insert_loop-Appended zero attempt (some e) w b = failed-Appended w e
    insert_loop-Appended (suc rounds) attempt last w b = elim (Option-cases (s.stopped w.jobs)) [
      | inr (x, e) ↦ rw e (failed-Appended w x)
      | inl e ↦ rw e (elim (Option-cases (s.answer w.jobs)) [
        | inl k ↦ rw (k, s.reliable w.jobs k) (done-Appended w _ refl)
        | inr (x, k) ↦ rw k (
            job-Appended w.chunks (s.appends w.jobs) _ (
              failed-again rounds attempt x (after w) (
                insert_loop-Appended rounds (attempt + 1) (some x) (after w)
                  (Begun-some rounds x))))
      ])
    ]

abbrev pub begin : List Chunk → World
begin old = record { jobs = 0; chunks = old }

pub insert_rows_with_retry-Appended :
    (s : Service) (rows : List Row) (w : World)
    → Appended s rows w.chunks (exec (bigquery s) (insert_rows_with_retry (codes "chunks") rows) w)
unfolding insert_rows_with_retry Begun
insert_rows_with_retry-Appended s rows w = insert_loop-Appended s rows 3 1 none w tt

pub done-repeated :
    (s : Service) (rows : List Row) (old : List Chunk) (x : Option Error × World)
    → Appended s rows old x
    → x.0 ≡ none
    → (n : ℕ) × ((x.1).chunks ≡ old ++ repeated n (map chunk_of rows))
unfolding Appended
done-repeated s rows old x (zero, e, h) done = absurd (omega (arith, h done))
done-repeated s rows old x (suc n, e, h) done =
    (n, e ∙ ap (λ y. old ++ y) (copies-repeated n (map chunk_of rows)))
