-- ===== src/Etl/Pool/Termination.antt =====
-- The pool of `Run` in internal/etl/worker_pool.go does not run for ever.
use go_drive_etl.Etl.Pool.Sums.{AllGone}
use mathlib.Core.Path.{subst}
use mathlib.Core.WellFounded.{Acc}
use go_drive_etl.Common.{
  ℕ, zero, suc, true, false, [], ◌∷◌, Text, Bool, List, ◌++◌, ◌≡◌, ◌≤◌, ◌+◌, ◌*◌, ◌⊎◌, inl, inr,
  arith, refl, length, length-append, ap, sym, ◌∙◌,
}
use go_drive_etl.Domain.{File}
use go_drive_etl.Retro.{SprintPolicy}
use go_drive_etl.Etl.Program.{
  download, download_workspace, context_err, insert_rows, wait, update_status, read_clock,
  add_failed, add_failed_update, Op, Reply, Prog, ret, call,
}
use go_drive_etl.Etl.Worker.{Outcome, stopped, failed, completed}
use go_drive_etl.Etl.Worker.Accounting.{Tally}
use go_drive_etl.Etl.Pool.Progress.{Moves, run-Moves}
use go_drive_etl.Etl.Pool.{
  Steps, acts, cancel, here, one_more, Worker, idle, busy, gone, Shared, Act, send, close, abort,
  work, WorkerStep, takes, leave, interrupted, calls, ends, counted, next_state, start,
  five_workers,
}

-- A worker that is nearer to its end: the rest of its program is a part of what it was, or it waits
-- or has returned.
Nearer : Worker → Worker → Type 0
Nearer w gone = ⊥
Nearer w idle = w ≡ gone
Nearer w (busy f m (ret x)) = (w ≡ idle) ⊎ (w ≡ gone)
Nearer w (busy f m (call o k)) = (r : Reply o) × (m' : Tally) × (w ≡ busy f m' (k r))

gone-Acc : Acc Nearer gone
unfolding Nearer
gone-Acc = Acc.intro gone λ w n. absurd n

idle-Acc : Acc Nearer idle
unfolding Nearer
idle-Acc = Acc.intro idle λ w n. subst (Acc Nearer) (sym n) gone-Acc

busy-Acc : (f : File) (m : Tally) (p : Prog Outcome) → Acc Nearer (busy f m p)
unfolding Nearer
busy-Acc f m (ret x) = Acc.intro _ λ w n. elim n [
  | inl e ↦ subst (Acc Nearer) (sym e) idle-Acc
  | inr e ↦ subst (Acc Nearer) (sym e) gone-Acc
]
busy-Acc f m (call o k) =
    Acc.intro _ λ w (r, m', e). subst (Acc Nearer) (sym e) (busy-Acc f m' (k r))

worker-Acc : (w : Worker) → Acc Nearer w
worker-Acc gone = gone-Acc
worker-Acc idle = idle-Acc
worker-Acc (busy f m p) = busy-Acc f m p

-- Workers of which one is nearer to its end.
OneNearer : List Worker → List Worker → Type 0
OneNearer vs [] = ⊥
OneNearer vs (w ∷ ws) =
    ((w' : Worker) × Nearer w' w × (vs ≡ w' ∷ ws))
    ⊎ ((ws' : List Worker) × OneNearer ws' ws × (vs ≡ w ∷ ws'))

cons-Acc :
    (w : Worker) (ws : List Worker) → Acc Nearer w → Acc OneNearer ws → Acc OneNearer (w ∷ ws)
unfolding OneNearer
cons-Acc w ws (Acc.intro _ f) (Acc.intro _ g) = Acc.intro (w ∷ ws) λ vs n. elim n [
  | inl (w', nearer, e) ↦
      subst (Acc OneNearer) (sym e) (cons-Acc w' ws (f w' nearer) (Acc.intro ws g))
  | inr (ws', nearer, e) ↦
      subst (Acc OneNearer) (sym e) (cons-Acc w ws' (Acc.intro w f) (g ws' nearer))
]

workers-Acc : (ws : List Worker) → Acc OneNearer ws
unfolding OneNearer
workers-Acc [] = Acc.intro [] λ vs n. absurd n
workers-Acc (w ∷ ws) = cons-Acc w ws (worker-Acc w) (workers-Acc ws)

OneNearer-at :
    (before after : List Worker) (w w' : Worker)
    → Nearer w' w
    → OneNearer (before ++ w' ∷ after) (before ++ w ∷ after)
unfolding OneNearer
OneNearer-at [] after w w' n = inl (w', n, refl)
OneNearer-at (v ∷ before) after w w' n = inr (_, OneNearer-at before after w w' n, refl)

-- What is still to be sent and taken, and whether the channel and the context can still be closed.
open_flag : Bool → ℕ
open_flag true = 0
open_flag false = 1

to_do : Shared → ℕ
to_do s = 2 * length s.unsent + length s.queue + open_flag s.closed + open_flag s.cancelled

to_do-counted : (o : Op) (s : Shared) → to_do (counted o s) ≡ to_do s
unfolding to_do counted
to_do-counted (download id) s = refl
to_do-counted (download_workspace id mime_type) s = refl
to_do-counted context_err s = refl
to_do-counted (insert_rows table rows) s = refl
to_do-counted (wait delay) s = refl
to_do-counted (update_status id status) s = refl
to_do-counted read_clock s = refl
to_do-counted add_failed s = refl
to_do-counted add_failed_update s = refl

module _ (hash : Text → Text) (policy : SprintPolicy) where
  -- What a step of a worker brings: less is to be taken, or the worker is nearer to its end.
  WorkerStep-progress :
      {s s' : Shared} {w w' : Worker}
      → WorkerStep hash policy s w s' w'
      → (to_do s' + 1 ≤ to_do s) ⊎ ((to_do s' ≡ to_do s) × Nearer w' w)
  unfolding to_do Nearer next_state counted
  WorkerStep-progress (takes s file files e) = inl (omega (arith, ap length e))
  WorkerStep-progress (leave s e closed) = inr (refl, refl)
  WorkerStep-progress (interrupted s c) = inr (refl, refl)
  WorkerStep-progress (calls s file m o k r p) = inr (to_do-counted o s, (r, _, refl))
  WorkerStep-progress (ends s file m stopped) = inr (refl, inr refl)
  WorkerStep-progress (ends s file m failed) = inr (refl, inl refl)
  WorkerStep-progress (ends s file m completed) = inr (refl, inl refl)

  Act-progress :
      {x y : Shared × List Worker}
      → Act hash policy x y
      → (to_do y.0 + 1 ≤ to_do x.0) ⊎ ((to_do y.0 ≡ to_do x.0) × OneNearer y.1 x.1)
  unfolding to_do open_flag
  Act-progress (send s ws file files e room opened) =
      inl (omega (arith, ap length e, length-append s.queue (file ∷ [])))
  Act-progress (close s ws e opened) = inl (omega (arith, ap open_flag opened))
  Act-progress (abort s ws cancelled opened) = inl (omega (arith, ap open_flag opened))
  Act-progress (work s s' before after w w' step) = elim (WorkerStep-progress step) [
    | inl less ↦ inl less
    | inr (same, nearer) ↦ inr (same, OneNearer-at before after w w' nearer)
  ]

  -- The steps that change something: those of the goroutines, and the end of the context, which
  -- comes once.
  pub data Next (y x : Shared × List Worker) : Type 0 where
    act : Act hash policy x y → Next y x
    cancelled_once : (x.0).cancelled ≡ false → y ≡ (record x.0 { cancelled = true }, x.1) → Next y x

  Next-progress :
      {x y : Shared × List Worker}
      → Next y x
      → (to_do y.0 + 1 ≤ to_do x.0) ⊎ ((to_do y.0 ≡ to_do x.0) × OneNearer y.1 x.1)
  unfolding to_do open_flag
  Next-progress (act a) = Act-progress a
  Next-progress {x} {y} (cancelled_once live e) =
      inl (omega (arith, ap (λ z. to_do z.0) e, ap open_flag live))

  -- With the states accessible that have less to do.
  by_workers :
      (n : ℕ)
      → ((y : Shared × List Worker) → to_do y.0 + 1 ≤ n → Acc Next y)
      → (s : Shared) (ws : List Worker) → to_do s ≡ n
      → Acc OneNearer ws
      → Acc Next (s, ws)
  by_workers n less s ws h (Acc.intro _ f) =
      Acc.intro (s, ws)
        λ (t, vs) step. elim (Next-progress step) [
          | inl fewer ↦ less (t, vs) (omega (arith, h, fewer))
          | inr (same, nearer) ↦ by_workers n less t vs (same ∙ h) (f vs nearer)
        ]

  below-Acc : (k : ℕ) (x : Shared × List Worker) → to_do x.0 + 1 ≤ k → Acc Next x
  below-Acc zero x h = absurd (omega (arith, h))
  below-Acc (suc k) (s, ws) h =
      by_workers (to_do s) (λ y lt. below-Acc k y (omega (arith, lt, h))) s ws refl (workers-Acc ws)

  -- No run of the pool goes on for ever, from whatever state and whatever the services reply.
  pool-Acc : (x : Shared × List Worker) → Acc Next x
  pool-Acc x = below-Acc (to_do x.0 + 1) x (omega arith)

  -- The end of `Run` cannot be missed: it is here, or a goroutine can act and it cannot be missed
  -- behind any step.
  pub data Completes : Shared × List Worker → Type 0 where
    ended : (x : Shared × List Worker) → AllGone x.1 → (x.0).closed ≡ true → Completes x
    goes_on :
        (x : Shared × List Worker)
        → Moves hash policy x
        → ((y : Shared × List Worker) → Next y x → Completes y)
        → Completes x

  Steps-Next :
      {x y z : Shared × List Worker} → Steps hash policy x y → Next z y → Steps hash policy x z
  Steps-Next steps (act a) = one_more steps (acts a)
  Steps-Next {x} {y} steps (cancelled_once live e) =
      subst (Steps hash policy x) (sym e) (one_more steps (cancel y.0 y.1))

  Acc-Completes :
      (files : List File) (x : Shared × List Worker)
      → Steps hash policy (start files, five_workers) x
      → Acc Next x
      → Completes x
  Acc-Completes files x steps (Acc.intro _ f) = elim (run-Moves hash policy files steps) [
    | inl (returned, closed) ↦ ended x returned closed
    | inr moves ↦ goes_on x moves (λ y n. Acc-Completes files y (Steps-Next steps n) (f y n))
  ]

  -- Every run of the pool comes to its end, where each call of a service is answered: whatever
  -- the replies, in whatever order the sender and the five workers act, and whenever the context
  -- ends, some goroutine can act until the channel is closed and all workers have returned, and
  -- that is so after finitely many steps.
  pub run-Completes : (files : List File) → Completes (start files, five_workers)
  run-Completes files = Acc-Completes files (start files, five_workers) here (pool-Acc _)
