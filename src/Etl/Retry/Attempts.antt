-- ===== src/Etl/Retry/Attempts.antt =====
-- How often `insertRowsWithRetry` of internal/etl/worker_pool.go loads, what it waits for and
-- what it returns, as long as the context is not cancelled.
use go_drive_etl.Common.{
  ℕ, none, some, true, ok, not, Text, Option, Error, List, ◌≡◌, Bool, [], if◌then◌else◌, take, ◌+◌,
  ◌++◌, ◌-◌, ◌∷◌, Option-cases, inl, inr, Bool-cases,
}
use go_drive_etl.Etl.Program.{
  Op, Reply, Row, exec, download, download_workspace, context_err, insert_rows, wait, update_status,
  read_clock, add_failed, add_failed_update,
}
use go_drive_etl.Etl.Retry.{is_retryable, insert_rows_with_retry}

-- The load jobs so far, and the delays that were waited for.
pub record Jobs : Type 0 where
  pub loads : ℕ
  pub delays : List ℕ

abbrev pub no_jobs : Jobs
no_jobs = record { loads = 0; delays = [] }

-- No further attempt follows such an answer: success, or an error that is not transient.
abbrev pub is_final : Option Error → Bool
is_final none = true
is_final (some e) = not (is_retryable e)

module _ (answers : ℕ → Option Error) where
  -- BigQuery gives its answers in turn, and no one cancels.
  abbrev pub services : (o : Op) → Jobs → Reply o × Jobs
  services (insert_rows table rows) w = (answers (w.loads + 1), record w { loads = w.loads + 1 })
  services (wait delay) w = (none, record w { delays = w.delays ++ delay ∷ [] })
  services context_err w = (none, w)
  services (download id) w = (ok [], w)
  services (download_workspace id mime_type) w = (ok [], w)
  services (update_status id status) w = (none, w)
  services read_clock w = (0, w)
  services add_failed w = (tt, w)
  services add_failed_update w = (tt, w)

  abbrev pub attempts : ℕ
  attempts = if is_final (answers 1) then 1 else if is_final (answers 2) then 2 else 3

  -- As long as the context is not done and no wait is interrupted: a load that meets a transient
  -- error is tried again, after one second and then after two, three times in all. The answer to
  -- the last attempt is returned; success and other errors end the loop at once.
  pub insert_rows_with_retry-attempts :
      (table : Text) (rows : List Row)
      → exec services (insert_rows_with_retry table rows) no_jobs ≡ (
        answers attempts,
        record {
          loads = attempts;
          delays = take (attempts - 1) (1_000_000_000 ∷ 2_000_000_000 ∷ []);
        },
      )
  unfolding insert_rows_with_retry
  insert_rows_with_retry-attempts table rows = elim (Option-cases (answers 1)) [
    | inl e ↦ rw (e, e)
    | inr (x, e) ↦ elim (Bool-cases (is_retryable x)) [
      | inr f ↦ rw (e, f, e)
      | inl f ↦ elim (Option-cases (answers 2)) [
        | inl g ↦ rw (e, f, g, g)
        | inr (y, g) ↦ elim (Bool-cases (is_retryable y)) [
          | inr h ↦ rw (e, f, g, h, g)
          | inl h ↦ elim (Option-cases (answers 3)) [
            | inl k ↦ rw (e, f, g, h, k)
            | inr (z, k) ↦ elim (Bool-cases (is_retryable z)) [
              | inl l ↦ rw (e, f, g, h, k, l)
              | inr l ↦ rw (e, f, g, h, k, l)
            ]
          ]
        ]
      ]
    ]
  ]
