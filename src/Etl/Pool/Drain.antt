-- ===== src/Etl/Pool/Drain.antt =====
-- A run of the pool of internal/etl/worker_pool.go over the table of
-- internal/repository/file_repository.go: the pending files that it lists, and what is pending
-- behind it.
use go_drive_etl.Common.{
  ltb, ℕ, none, some, [], Text, List, Option, ◌≡◌, Bool-cases, inl, inr, arith, refl, ◌∙◌, ap,
  text_eq, if◌then◌else◌, Error, ok,
}
use go_drive_etl.Domain.{File, SyncStatus, status_done, status_pending}
use go_drive_etl.Retro.{SprintPolicy}
use go_drive_etl.Repository.{only_pending}
use go_drive_etl.Repository.Postgres.{Table, find, select_pending, list_pending}
use go_drive_etl.Repository.Postgres.Rows.{find-select_pending, IsKeyed}
use go_drive_etl.Repository.Postgres.Pending.{list_pending-ok}
use mathlib.Core.List.{Permᴰ}
use mathlib.Core.Path.{subst}
use go_drive_etl.Etl.Worker.Statuses.{set_to}
use go_drive_etl.Etl.Pool.{
  Worker, Shared, WorkerStep, takes, leave, interrupted, calls, ends, Step, Steps, send, close,
  abort, cancel, acts, work, here, one_more, start, five_workers, run_result,
}
use go_drive_etl.Etl.Pool.Balance.{count}
use go_drive_etl.Etl.Pool.Stored.{
  status_of, stored, stored-IsKeyed, stored-track, pending_one, count-select_pending, find-nothing,
  pending_one-most, count-perm,
}
use go_drive_etl.Etl.Pool.Followers.{has_id}
use go_drive_etl.Etl.Pool.Sums.{AllGone}
use go_drive_etl.Etl.Pool.Marks.{after_work, after_step, shown, is_listed, run-Marks}

-- The status of an entry behind a run without an error.
abbrev pub processed : Option File → Option SyncStatus
processed none = none
processed (some f) =
    some (if text_eq f.sync_status status_pending then status_done else f.sync_status)

pending_one-processed :
    (entry : Option File)
    → (if ltb 0 (pending_one entry) then set_to status_done (status_of entry) else status_of entry)
      ≡ processed entry
pending_one-processed none = refl
pending_one-processed (some f) = elim (Bool-cases (text_eq f.sync_status status_pending)) [
  | inl pending ↦ rw pending refl
  | inr settled ↦ rw settled refl
]

processed-only_pending :
    (entry before : Option File) → status_of entry ≡ processed before → only_pending entry ≡ none
unfolding only_pending
processed-only_pending none before h = refl
processed-only_pending (some f) none h = cc
processed-only_pending (some f) (some g) h =
    let same : f.sync_status
        ≡ (if text_eq g.sync_status status_pending then status_done else g.sync_status) =
      cc in
    elim (Bool-cases (text_eq g.sync_status status_pending)) [
      | inl pending ↦ rw (same, pending) refl
      | inr settled ↦ rw (same, settled, settled) refl
    ]

module _ (hash : Text → Text) (policy : SprintPolicy)
    (clock : (x y : Shared × List Worker) → Step hash policy x y → ℕ) where
  abbrev table_after_work :
      {s s' : Shared} {w w' : Worker} → WorkerStep hash policy s w s' w' → ℕ → Table → Table
  table_after_work (takes s file files e) now t = t
  table_after_work (leave s e c) now t = t
  table_after_work (interrupted s c) now t = t
  table_after_work (calls s file m o k r h) now t = stored now o r t
  table_after_work (ends s file m outcome) now t = t

  abbrev table_after_step : {x y : Shared × List Worker} → Step hash policy x y → ℕ → Table → Table
  table_after_step (acts (send s ws f fs e room c)) now t = t
  table_after_step (acts (close s ws e c)) now t = t
  table_after_step (acts (abort s ws x c)) now t = t
  table_after_step (acts (work s s' before after w w' step)) now t = table_after_work step now t
  table_after_step (cancel s ws) now t = t

  -- The table behind a run.
  abbrev pub table_after : {x y : Shared × List Worker} → Steps hash policy x y → Table → Table
  table_after here t = t
  table_after (one_more {x} {y} {z} steps step) t =
      table_after_step step (clock y z step) (table_after steps t)

  WorkerStep-IsKeyed :
      {s s' : Shared} {w w' : Worker} (step : WorkerStep hash policy s w s' w') (now : ℕ)
      (t : Table)
      → IsKeyed t
      → IsKeyed (table_after_work step now t)
  WorkerStep-IsKeyed (takes s file files e) now t v = v
  WorkerStep-IsKeyed (leave s e c) now t v = v
  WorkerStep-IsKeyed (interrupted s c) now t v = v
  WorkerStep-IsKeyed (calls s file m o k r h) now t v = stored-IsKeyed now o r t v
  WorkerStep-IsKeyed (ends s file m outcome) now t v = v

  Step-IsKeyed :
      {x y : Shared × List Worker} (step : Step hash policy x y) (now : ℕ) (t : Table)
      → IsKeyed t
      → IsKeyed (table_after_step step now t)
  Step-IsKeyed (acts (send s ws f fs e room c)) now t v = v
  Step-IsKeyed (acts (close s ws e c)) now t v = v
  Step-IsKeyed (acts (abort s ws x c)) now t v = v
  Step-IsKeyed (acts (work s s' before after w w' step)) now t v = WorkerStep-IsKeyed step now t v
  Step-IsKeyed (cancel s ws) now t v = v

  table_after-IsKeyed :
      {x y : Shared × List Worker} (steps : Steps hash policy x y) (t : Table)
      → IsKeyed t
      → IsKeyed (table_after steps t)
  table_after-IsKeyed here t v = v
  table_after-IsKeyed (one_more {x} {y} {z} steps step) t v =
      Step-IsKeyed step (clock y z step) (table_after steps t) (table_after-IsKeyed steps t v)

  module _ (key : Text) where
    WorkerStep-track :
        {s s' : Shared} {w w' : Worker} (step : WorkerStep hash policy s w s' w') (now : ℕ)
        (t : Table)
        → IsKeyed t
        → status_of (find (table_after_work step now t) key)
          ≡ after_work hash policy step key (status_of (find t key))
    WorkerStep-track (takes s file files e) now t v = refl
    WorkerStep-track (leave s e c) now t v = refl
    WorkerStep-track (interrupted s c) now t v = refl
    WorkerStep-track (calls s file m o k r h) now t v = stored-track now o r t key v
    WorkerStep-track (ends s file m outcome) now t v = refl

    Step-track :
        {x y : Shared × List Worker} (step : Step hash policy x y) (now : ℕ) (t : Table)
        → IsKeyed t
        → status_of (find (table_after_step step now t) key)
          ≡ after_step hash policy step key (status_of (find t key))
    Step-track (acts (send s ws f fs e room c)) now t v = refl
    Step-track (acts (close s ws e c)) now t v = refl
    Step-track (acts (abort s ws x c)) now t v = refl
    Step-track (acts (work s s' before after w w' step)) now t v = WorkerStep-track step now t v
    Step-track (cancel s ws) now t v = refl

    -- The table shows what the replies of a run say.
    table_after-shown :
        {x y : Shared × List Worker} (steps : Steps hash policy x y) (t : Table)
        → IsKeyed t
        → status_of (find (table_after steps t) key)
          ≡ shown hash policy steps key (status_of (find t key))
    table_after-shown here t v = refl
    table_after-shown (one_more {x} {y} {z} steps step) t v =
        Step-track step (clock y z step) (table_after steps t) (table_after-IsKeyed steps t v)
        ∙ ap (after_step hash policy step key) (table_after-shown steps t v)

  run-processed :
      (t : Table) (files : List File) (key : Text) (e : Permᴰ files (select_pending t))
      (v : IsKeyed t) {s : Shared} {ws : List Worker}
      (steps : Steps hash policy (start files, five_workers) (s, ws))
      → AllGone ws
      → run_result s ≡ none
      → status_of (find (table_after steps t) key) ≡ processed (find t key)
  run-processed t files key e v steps all result =
      let counted : count (has_id key) files ≡ pending_one (find t key) =
        count-perm (has_id key) e ∙ count-select_pending t key v in
      table_after-shown key steps t v
      ∙ run-Marks hash policy files key (status_of (find t key))
          (omega (arith, counted, pending_one-most (find t key))) steps all result
      ∙ unfold is_listed in rw counted (pending_one-processed (find t key))

  -- Where the IDs of the table are unique, the pool runs over the files that `ListPending`
  -- returned for it, in whatever order the server gave the rows, and at the end of the run `Run`
  -- returns no error, no row of the table is pending: each that was is `done`, and all others
  -- have the status that they had, whatever the order in which the goroutines acted and whatever
  -- the services replied.
  pub run-Drains :
      (arrange : Table → Table) (query : Option Error) (scan : File → Option Error)
      (rows_err : Option Error) (t : Table) (files : List File) {s : Shared} {ws : List Worker}
      (steps : Steps hash policy (start files, five_workers) (s, ws))
      → IsKeyed t
      → ((rows : Table) → Permᴰ (arrange rows) rows)
      → list_pending arrange query scan rows_err t ≡ ok files
      → AllGone ws
      → run_result s ≡ none
      → (select_pending (table_after steps t) ≡ [])
        × ((key : Text) → status_of (find (table_after steps t) key) ≡ processed (find t key))
  run-Drains arrange query scan rows_err t files steps v order listed all result =
      let e : Permᴰ files (select_pending t) =
        subst (λ l. Permᴰ l (select_pending t))
          (list_pending-ok arrange query scan rows_err t files listed) (order (select_pending t)) in
      let marked : (key : Text)
          → status_of (find (table_after steps t) key) ≡ processed (find t key) =
        λ key. run-processed t files key e v steps all result in
      (
        find-nothing (select_pending (table_after steps t)) (λ id.
            find-select_pending (table_after steps t) id (table_after-IsKeyed steps t v)
            ∙ processed-only_pending (find (table_after steps t) id) (find t id) (marked id)),
        marked,
      )
