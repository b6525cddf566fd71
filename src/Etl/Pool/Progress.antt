-- ===== src/Etl/Pool/Progress.antt =====
-- The pool of `Run` in internal/etl/worker_pool.go does not come to a standstill.
use go_drive_etl.Etl.Pool.Sums.{AllGone}
use go_drive_etl.Common.{
  ok, none, true, false, [], ◌∷◌, Text, List, ◌++◌, ◌≡◌, ◌⊎◌, inl, inr, arith, refl, Bool-cases,
}
use go_drive_etl.Domain.{File}
use go_drive_etl.Retro.{SprintPolicy}
use go_drive_etl.Etl.Program.{
  Op, Reply, Prog, ret, call, download, download_workspace, context_err, insert_rows, wait,
  update_status, read_clock, add_failed, add_failed_update,
}
use go_drive_etl.Etl.Worker.{Outcome}
use go_drive_etl.Etl.Pool.{
  Worker, idle, busy, gone, Shared, Act, Steps, send, close, abort, work, calls, ends, takes, leave,
  Possible, start, five_workers,
}
use go_drive_etl.Etl.Pool.Conservation.{run-closed}
use go_drive_etl.Etl.Pool.Balance.{is_gone}
use go_drive_etl.Etl.Worker.Accounting.{Tally}

-- A list is empty, or has a first file.
files_cases :
    (files : List File) → (files ≡ []) ⊎ ((f : File) × (fs : List File) × (files ≡ f ∷ fs))
files_cases [] = inl refl
files_cases (f ∷ fs) = inr (f, fs, refl)

-- Every call has a reply that it may get.
abbrev some_reply : (o : Op) → Reply o
some_reply (download id) = ok []
some_reply (download_workspace id mime_type) = ok []
some_reply context_err = none
some_reply (insert_rows table rows) = none
some_reply (wait delay) = none
some_reply (update_status id status) = none
some_reply read_clock = 0
some_reply add_failed = tt
some_reply add_failed_update = tt

some_reply-Possible : (s : Shared) (o : Op) → Possible s o (some_reply o)
some_reply-Possible s (download id) = tt
some_reply-Possible s (download_workspace id mime_type) = tt
some_reply-Possible s context_err = λ h. absurd (h refl)
some_reply-Possible s (insert_rows table rows) = tt
some_reply-Possible s (wait delay) = tt
some_reply-Possible s (update_status id status) = tt
some_reply-Possible s read_clock = tt
some_reply-Possible s add_failed = tt
some_reply-Possible s add_failed_update = tt

-- Every worker has returned, or one has not: it waits or works.
data Crew : List Worker → Type 0 where
  all_gone : {ws : List Worker} → AllGone ws → Crew ws
  waits : (before after : List Worker) → Crew (before ++ idle ∷ after)
  works :
      (before after : List Worker) (f : File) (m : Tally) (prog : Prog Outcome)
      → Crew (before ++ busy f m prog ∷ after)

Crew-cons : (w : Worker) {ws : List Worker} → is_gone w ≡ true → Crew ws → Crew (w ∷ ws)
Crew-cons w e (all_gone g) = all_gone (e, g)
Crew-cons w e (waits before after) = waits (w ∷ before) after
Crew-cons w e (works before after f m prog) = works (w ∷ before) after f m prog

crew : (ws : List Worker) → Crew ws
crew [] = all_gone tt
crew (idle ∷ ws) = waits [] ws
crew (busy f m prog ∷ ws) = works [] ws f m prog
crew (gone ∷ ws) = Crew-cons gone refl (crew ws)

module _ (hash : Text → Text) (policy : SprintPolicy) where
  -- A goroutine of the pool can act.
  abbrev pub Moves : Shared × List Worker → Type 0
  Moves x = (y : Shared × List Worker) × Act hash policy x y

  works-Moves :
      (s : Shared) (before after : List Worker) (f : File) (m : Tally) (prog : Prog Outcome)
      → Moves (s, before ++ busy f m prog ∷ after)
  works-Moves s before after f m (ret outcome) = (_, work s _ before after _ _ (ends s f m outcome))
  works-Moves s before after f m (call o k) =
      (_, work s _ before after _ _ (calls s f m o k (some_reply o) (some_reply-Possible s o)))

  -- The sender, where the channel is open and empty.
  sends-Moves : (s : Shared) (ws : List Worker) → s.closed ≡ false → s.queue ≡ [] → Moves (s, ws)
  sends-Moves s ws opened empty = elim (files_cases s.unsent) [
    | inl e ↦ (_, close s ws e opened)
    | inr (f, fs, e) ↦ (_, send s ws f fs e (rw empty (omega arith)) opened)
  ]

  waits-Moves : (s : Shared) (before after : List Worker) → Moves (s, before ++ idle ∷ after)
  waits-Moves s before after = elim (files_cases s.queue) [
    | inr (f, fs, e) ↦ (_, work s _ before after _ _ (takes s f fs e))
    | inl e ↦ elim (Bool-cases s.closed) [
      | inl closed ↦ (_, work s _ before after _ _ (leave s e closed))
      | inr opened ↦ sends-Moves s (before ++ idle ∷ after) opened e
    ]
  ]

  gone-Moves :
      (s : Shared) (ws : List Worker)
      → (s.cancelled ≡ false → s.closed ≡ true)
      → (s.closed ≡ true) ⊎ Moves (s, ws)
  gone-Moves s ws h = elim (Bool-cases s.closed) [
    | inl closed ↦ inl closed
    | inr opened ↦ elim (Bool-cases s.cancelled) [
      | inl cancelled ↦ inr (_, abort s ws cancelled opened)
      | inr live ↦ inl (h live)
    ]
  ]

  Crew-Moves :
      (s : Shared) {ws : List Worker}
      → Crew ws
      → (AllGone ws → s.cancelled ≡ false → s.closed ≡ true)
      → (AllGone ws × (s.closed ≡ true)) ⊎ Moves (s, ws)
  Crew-Moves s (waits before after) h = inr (waits-Moves s before after)
  Crew-Moves s (works before after f m prog) h = inr (works-Moves s before after f m prog)
  Crew-Moves s {ws} (all_gone g) h = elim (gone-Moves s ws (h g)) [
    | inl closed ↦ inl (g, closed)
    | inr moves ↦ inr moves
  ]

  -- In every state that a run reaches, `Run` has come to its end, with the channel closed and all
  -- workers returned, or a goroutine can act, where the services answer: the sender and the workers
  -- do not block each other.
  pub run-Moves :
      (files : List File) {s : Shared} {ws : List Worker}
      → Steps hash policy (start files, five_workers) (s, ws)
      → (AllGone ws × (s.closed ≡ true)) ⊎ Moves (s, ws)
  run-Moves files {s} {ws} steps =
      Crew-Moves s (crew ws) (λ g live. run-closed hash policy files steps live g)
