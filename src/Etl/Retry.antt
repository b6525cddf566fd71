-- ===== src/Etl/Retry.antt =====
-- `insertRowsWithRetry`, `isRetryableBigQueryError` and `waitForContext` of
-- internal/etl/worker_pool.go.
pub mod Attempts
use go_drive_etl.Common.{
  ℕ, zero, suc, none, some, true, false, Text, Option, Error, List, Bool, if◌then◌else◌,
  is_canceled, not, ◌==◌, ◌||◌, is_deadline_exceeded, ◌*◌, as_api_error, ◌^◌, ◌-◌, ◌+◌,
}
use go_drive_etl.Etl.Program.{Op, Prog, Row, ret, perform, context_err, insert_rows, wait, ◌>>=◌}

abbrev pub max_attempts : ℕ
max_attempts = 3

-- `time.Second`, in nanoseconds.
abbrev pub initial_delay : ℕ
initial_delay = 1_000_000_000

abbrev pub retryable_code : ℕ → Bool
retryable_code code = code == 500 || code == 502 || code == 503 || code == 504

unfoldable pub is_retryable : Error → Bool
is_retryable e =
    if is_canceled e || is_deadline_exceeded e
    then false
    else elim (as_api_error e) [ none ↦ false | some code ↦ retryable_code code ]

-- The loop, from attempt number `attempt` on, with the rounds that are left and `lastErr`.
unfoldable pub insert_loop : ℕ → ℕ → Text → List Row → Option Error → Prog (Option Error)
insert_loop zero attempt table rows last = ret last
insert_loop (suc rounds) attempt table rows last = perform context_err >>= λ stopped. elim stopped [
  | some e ↦ ret (some e)
  | none ↦ perform (insert_rows table rows) >>= λ result. elim result [
    | none ↦ ret none
    | some e ↦
        if not (is_retryable e) || attempt == max_attempts
        then ret (some e)
        else (perform (wait (initial_delay * 2 ^ (attempt - 1))) >>= λ interrupted.
            elim interrupted [
              | some w ↦ ret (some w)
              | none ↦ insert_loop rounds (attempt + 1) table rows (some e)
            ])
  ]
]

unfoldable pub insert_rows_with_retry : Text → List Row → Prog (Option Error)
unfolding insert_loop
insert_rows_with_retry table rows = insert_loop max_attempts 1 table rows none

-- What the `select` of `waitForContext` finds ready: the timer, or the context with its error.
pub data Ready : Type 0 where
  timer_fired : Ready
  context_done : Error → Ready

-- `waitForContext`, the reply of the call `wait`.
unfoldable pub wait_for_context : Ready → Option Error
wait_for_context timer_fired = none
wait_for_context (context_done e) = some e
