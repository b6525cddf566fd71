-- ===== src/Etl/Pool.antt =====
-- `Run` of internal/etl/worker_pool.go behind the list of the pending files: the goroutine that
-- sends the files on the channel, five workers, the counters that they share, and the context. A
-- step is one action of one goroutine, and any goroutine that can act may be the next. A worker
-- remembers the calls that it made for its file, and the pool the files that were finished; the
-- code does neither, and no step depends on it.
pub mod Balance
pub mod Sums
pub mod Conservation
pub mod Followers
pub mod Marks
pub mod Stored
pub mod Drain
pub mod Progress
pub mod Termination
use go_drive_etl.Common.{
  ℕ, zero, suc, none, some, true, false, [], ◌∷◌, Text, Bool, List, Option, Error, message,
  canceled, ok, err, wrapped, Result, codes, if◌then◌else◌, ltb, length, ◌++◌, ◌+◌, ◌<◌, ◌≡◌, ◌≢◌,
}
use go_drive_etl.Domain.{File}
use go_drive_etl.Retro.{SprintPolicy, new_sprint_policy}
use go_drive_etl.Etl.Program.{
  Op, Reply, Prog, ret, call, context_err, add_failed, add_failed_update,
}
use go_drive_etl.Etl.Worker.{Outcome, stopped, failed, completed, process_file}
use go_drive_etl.Etl.Worker.Accounting.{Tally, no_calls, observe}

-- A worker waits for a file, works on one, or has returned.
pub data Worker : Type 0 where
  idle : Worker
  busy : File → Tally → Prog Outcome → Worker
  gone : Worker

-- What the goroutines share: the files that are not sent, the channel, whether it is closed,
-- whether the context is done, and the counters.
pub record Shared : Type 0 where
  pub unsent : List File
  pub queue : List File
  pub closed : Bool
  pub cancelled : Bool
  pub failed_files : ℕ
  pub failed_status_updates : ℕ
  pub finished : List (File × Outcome)

abbrev pub channel_size : ℕ
channel_size = 100

-- What a call does to the counters.
unfoldable pub counted : Op → Shared → Shared
counted add_failed s = record s { failed_files = s.failed_files + 1 }
counted add_failed_update s = record s { failed_status_updates = s.failed_status_updates + 1 }
counted _ s = s

-- `ctx.Err()` is an error only when the context is done; all other replies are anybody's.
abbrev pub Possible : Shared → (o : Op) → Reply o → Type 0
Possible s context_err r = r ≢ none → s.cancelled ≡ true
Possible s _ r = Unit

-- How a worker goes on behind a file.
unfoldable pub next_state : Outcome → Worker
next_state stopped = gone
next_state failed = idle
next_state completed = idle

module _ (hash : Text → Text) (policy : SprintPolicy) where
  -- The steps of one worker.
  pub data WorkerStep : Shared → Worker → Shared → Worker → Type 0 where
    takes :
        (s : Shared) (file : File) (files : List File)
        → s.queue ≡ file ∷ files
        → WorkerStep s idle
            (record s { queue = files })
            (busy file no_calls (process_file hash policy file))
    leave : (s : Shared) → s.queue ≡ [] → s.closed ≡ true → WorkerStep s idle s gone
    interrupted : (s : Shared) → s.cancelled ≡ true → WorkerStep s idle s gone
    calls :
        (s : Shared) (file : File) (m : Tally) (o : Op) (k : Reply o → Prog Outcome) (r : Reply o)
        → Possible s o r
        → WorkerStep s (busy file m (call o k)) (counted o s) (busy file (observe file m o r) (k r))
    ends :
        (s : Shared) (file : File) (m : Tally) (outcome : Outcome)
        → WorkerStep s
            (busy file m (ret outcome))
            (record s { finished = (file, outcome) ∷ s.finished })
            (next_state outcome)

  -- The steps of the goroutines of `Run`: the sender and the workers.
  pub data Act : Shared × List Worker → Shared × List Worker → Type 0 where
    send :
        (s : Shared) (ws : List Worker) (file : File) (files : List File)
        → s.unsent ≡ file ∷ files
        → length s.queue < channel_size
        → s.closed ≡ false
        → Act (s, ws) (record s { unsent = files; queue = s.queue ++ file ∷ [] }, ws)
    close :
        (s : Shared) (ws : List Worker)
        → s.unsent ≡ []
        → s.closed ≡ false
        → Act (s, ws) (record s { closed = true }, ws)
    abort :
        (s : Shared) (ws : List Worker)
        → s.cancelled ≡ true
        → s.closed ≡ false
        → Act (s, ws) (record s { closed = true }, ws)
    work :
        (s s' : Shared) (before after : List Worker) (w w' : Worker)
        → WorkerStep s w s' w'
        → Act (s, before ++ w ∷ after) (s', before ++ w' ∷ after)

  -- The steps of the pool: theirs, and the end of the context.
  pub data Step : Shared × List Worker → Shared × List Worker → Type 0 where
    acts : {x y : Shared × List Worker} → Act x y → Step x y
    cancel : (s : Shared) (ws : List Worker) → Step (s, ws) (record s { cancelled = true }, ws)

  pub data Steps : Shared × List Worker → Shared × List Worker → Type 0 where
    here : {x : Shared × List Worker} → Steps x x
    one_more : {x y z : Shared × List Worker} → Steps x y → Step y z → Steps x z

-- The pool as `Run` starts it.
abbrev pub start : List File → Shared
start files = record {
  unsent = files;
  queue = [];
  closed = false;
  cancelled = false;
  failed_files = 0;
  failed_status_updates = 0;
  finished = [];
}

abbrev pub five_workers : List Worker
five_workers = idle ∷ idle ∷ idle ∷ idle ∷ idle ∷ []

-- The message leaves out the counts.
abbrev pub processing_failed : Error
processing_failed = message (codes "file processing failed")

-- What `Run` returns behind `wg.Wait()`.
unfoldable pub run_result : Shared → Option Error
run_result s =
    if s.cancelled
    then some canceled
    else if ltb 0 s.failed_files
    then some processing_failed
    else none

-- `Run` up to the pool: the policy from the environment and the pending files, or the error of the
-- first that fails.
unfoldable pub pending_files : SprintPolicy → Result (List File) → Result (SprintPolicy × List File)
pending_files policy (err e) = err e
pending_files policy (ok files) = ok (policy, files)

unfoldable pub prepare : Text → Result (List File) → Result (SprintPolicy × List File)
unfolding pending_files
prepare from_month listed = elim (new_sprint_policy from_month) [
  | err e ↦ err (wrapped (codes "RETRO_SPRINT_FROM_MONTH: ") e)
  | ok policy ↦ pending_files policy listed
]
