-- ===== src/Etl/Pool/Balance.antt =====
-- What the goroutines of `Run` in internal/etl/worker_pool.go add up to, whatever the order of
-- their steps: files and failures.
use go_drive_etl.Common.{
  sym, ◌∙◌, ap, text_eq, codes, ℕ, none, some, true, false, [], ◌∷◌, Text, Bool, List, ◌+◌, ◌≡◌,
  ◌⊎◌, inr, arith, refl,
}
use go_drive_etl.Domain.{File, status_done}
use go_drive_etl.Retro.{SprintPolicy}
use go_drive_etl.Etl.Program.{
  Op, Reply, Prog, Checks, ret, call, download, download_workspace, context_err, insert_rows, wait,
  update_status, read_clock, add_failed, add_failed_update,
}
use go_drive_etl.Etl.Worker.{Outcome, stopped, failed, completed}
use go_drive_etl.Etl.Worker.Accounting.{
  on_load, on_status, succeeded, Tally, IsAccounted, observe, process_file-IsAccounted,
}
use go_drive_etl.Etl.Pool.{
  Worker, busy, gone, Shared, WorkerStep, takes, leave, interrupted, calls, ends, counted,
  next_state, Possible,
}

abbrev pub one : Bool → ℕ
one true = 1
one false = 0

-- How many files of a list pass a test.
unfoldable pub count : (File → Bool) → List File → ℕ
count p [] = 0
count p (f ∷ files) = one (p f) + count p files

unfoldable pub finished_count : (File → Bool) → List (File × Outcome) → ℕ
finished_count p [] = 0
finished_count p ((f, outcome) ∷ done) = one (p f) + finished_count p done

abbrev pub is_failed : Outcome → Bool
is_failed failed = true
is_failed _ = false

abbrev pub is_stopped : Outcome → Bool
is_stopped stopped = true
is_stopped _ = false

-- How many of the files that were finished failed, and how many were given up.
unfoldable pub failed_count : List (File × Outcome) → ℕ
failed_count [] = 0
failed_count ((f, outcome) ∷ done) = one (is_failed outcome) + failed_count done

unfoldable pub stopped_count : List (File × Outcome) → ℕ
stopped_count [] = 0
stopped_count ((f, outcome) ∷ done) = one (is_stopped outcome) + stopped_count done

-- What one worker holds: its file, the failures that it counted for it, and whether it returned.
abbrev pub held : (File → Bool) → Worker → ℕ
held p (busy f m prog) = one (p f)
held p _ = 0

abbrev pub failures_of : Worker → ℕ
failures_of (busy f m prog) = m.failures
failures_of _ = 0

abbrev pub is_gone : Worker → Bool
is_gone gone = true
is_gone _ = false

-- A worker that works is on its way to an outcome that its calls account for.
abbrev pub IsSound : Bool → Worker → Type 0
IsSound cancelled (busy f m prog) =
    Checks (observe f) (IsAccounted f) m prog × (m.cancelled ≡ true → cancelled ≡ true)
IsSound cancelled _ = Unit

-- What a step of a worker keeps.
pub record Keeps (s : Shared) (w : Worker) (s' : Shared) (w' : Worker) : Type 0 where
  pub files :
      (p : File → Bool)
      → count p s'.queue + held p w' + finished_count p s'.finished
        ≡ count p s.queue + held p w + finished_count p s.finished
  pub failures :
      s'.failed_files + failures_of w + failed_count s.finished
      ≡ s.failed_files + failures_of w' + failed_count s'.finished
  pub sound : IsSound s'.cancelled w'
  pub same_cancelled : s'.cancelled ≡ s.cancelled
  pub same_closed : s'.closed ≡ s.closed
  pub same_unsent : s'.unsent ≡ s.unsent
  pub queue_stays : s.queue ≡ [] → s'.queue ≡ []
  pub left :
      s.cancelled ≡ false
      → is_gone w' ≡ true
      → (is_gone w ≡ true) ⊎ ((s.closed ≡ true) × (s.queue ≡ []))
  pub stops : s.cancelled ≡ false → stopped_count s'.finished ≡ stopped_count s.finished

during-Keeps :
    (s s' : Shared) (file : File) (m m' : Tally) (prog prog' : Prog Outcome)
    → s'.queue ≡ s.queue
    → s'.finished ≡ s.finished
    → s'.cancelled ≡ s.cancelled
    → s'.closed ≡ s.closed
    → s'.unsent ≡ s.unsent
    → s'.failed_files + m.failures ≡ s.failed_files + m'.failures
    → Checks (observe file) (IsAccounted file) m' prog'
    → (m'.cancelled ≡ true → s.cancelled ≡ true)
    → Keeps s (busy file m prog) s' (busy file m' prog')
during-Keeps s s' file m m' prog prog' q f x c u n h live = record {
  files = λ p. rw (q, f);
  failures = rw f (omega (arith, n));
  sound = (h, λ e. x ∙ live e);
  same_cancelled = x;
  same_closed = c;
  same_unsent = u;
  queue_stays = λ e. q ∙ e;
  left = λ _ e. cc;
  stops = λ _. ap stopped_count f;
}

-- No other call touches the failures or the context.
same_failures :
    (file : File) (m : Tally) (b good : Bool)
    → ((on_load file m b good).failures ≡ m.failures)
      × ((on_load file m b good).cancelled ≡ m.cancelled)
      × ((on_status file m b good).failures ≡ m.failures)
      × ((on_status file m b good).cancelled ≡ m.cancelled)
same_failures file m true good = (refl, refl, refl, refl)
same_failures file m false good = (refl, refl, refl, refl)

calls-Keeps :
    (s : Shared) (file : File) (m : Tally) (o : Op) (k : Reply o → Prog Outcome) (r : Reply o)
    → Possible s o r
    → Checks (observe file) (IsAccounted file) (observe file m o r) (k r)
    → (m.cancelled ≡ true → s.cancelled ≡ true)
    → Keeps s (busy file m (call o k)) (counted o s) (busy file (observe file m o r) (k r))
unfolding counted
calls-Keeps s file m (download id) k r h c live =
    during-Keeps s s file m m _ (k r) refl refl refl refl refl refl c live
calls-Keeps s file m (download_workspace id t) k r h c live =
    during-Keeps s s file m m _ (k r) refl refl refl refl refl refl c live
calls-Keeps s file m context_err k none h c live =
    during-Keeps s s file m _ _ (k none) refl refl refl refl refl refl c (λ e. cc)
calls-Keeps s file m context_err k (some x) h c live =
    during-Keeps s s file m _ _ (k (some x)) refl refl refl refl refl refl c (λ e. h (λ d. cc))
calls-Keeps s file m (insert_rows table rows) k r h c live =
    let (same, x, _, _) = same_failures file m (text_eq table (codes "chunks")) (succeeded r) in
    during-Keeps s s file m _ _ (k r) refl refl refl refl refl (omega (arith, same)) c
      (λ e. live (sym x ∙ e))
calls-Keeps s file m (wait n) k r h c live =
    during-Keeps s s file m m _ (k r) refl refl refl refl refl refl c live
calls-Keeps s file m (update_status id status) k r h c live =
    let (_, _, same, x) = same_failures file m (text_eq status status_done) (succeeded r) in
    during-Keeps s s file m _ _ (k r) refl refl refl refl refl (omega (arith, same)) c
      (λ e. live (sym x ∙ e))
calls-Keeps s file m read_clock k r h c live =
    during-Keeps s s file m m _ (k r) refl refl refl refl refl refl c live
calls-Keeps s file m add_failed k r h c live =
    during-Keeps s _ file m _ _ (k r) refl refl refl refl refl (omega arith) c live
calls-Keeps s file m add_failed_update k r h c live =
    during-Keeps s _ file m _ _ (k r) refl refl refl refl refl refl c live

ends-Keeps :
    (s : Shared) (file : File) (m : Tally) (outcome : Outcome)
    → IsAccounted file m outcome
    → (m.cancelled ≡ true → s.cancelled ≡ true)
    → Keeps s
        (busy file m (ret outcome))
        (record s { finished = (file, outcome) ∷ s.finished })
        (next_state outcome)
unfolding next_state finished_count failed_count stopped_count
ends-Keeps s file m stopped a live =
    let (c, none_failed, _, _, _) = a.when_stopped refl in
    record {
      files = λ p. omega arith;
      failures = omega arith;
      sound = tt;
      same_cancelled = refl;
      same_closed = refl;
      same_unsent = refl;
      queue_stays = λ e. e;
      left = λ e _. absurd (cc (live c, e));
      stops = λ e. absurd (cc (live c, e));
    }
ends-Keeps s file m failed a live =
    let (one_failed, _, _) = a.when_failed refl in
    record {
      files = λ p. omega arith;
      failures = omega arith;
      sound = tt;
      same_cancelled = refl;
      same_closed = refl;
      same_unsent = refl;
      queue_stays = λ e. e;
      left = λ _ e. cc;
      stops = λ _. omega arith;
    }
ends-Keeps s file m completed a live =
    let (_, _, _, none_failed, _, _) = a.when_completed refl in
    record {
      files = λ p. omega arith;
      failures = omega arith;
      sound = tt;
      same_cancelled = refl;
      same_closed = refl;
      same_unsent = refl;
      queue_stays = λ e. e;
      left = λ _ e. cc;
      stops = λ _. omega arith;
    }

module _ (hash : Text → Text) (policy : SprintPolicy) where
  pub WorkerStep-Keeps :
      {s s' : Shared} {w w' : Worker}
      → WorkerStep hash policy s w s' w'
      → IsSound s.cancelled w
      → Keeps s w s' w'
  WorkerStep-Keeps (takes s file files e) v = record {
    files = λ p. rw e (unfold count in omega arith);
    failures = omega arith;
    sound = (process_file-IsAccounted hash policy file, λ d. cc);
    same_cancelled = refl;
    same_closed = refl;
    same_unsent = refl;
    queue_stays = λ d. cc;
    left = λ _ d. cc;
    stops = λ _. refl;
  }
  WorkerStep-Keeps (leave s e c) v = record {
    files = λ p. refl;
    failures = refl;
    sound = tt;
    same_cancelled = refl;
    same_closed = refl;
    same_unsent = refl;
    queue_stays = λ d. d;
    left = λ _ _. inr (c, e);
    stops = λ _. refl;
  }
  WorkerStep-Keeps (interrupted s c) v = record {
    files = λ p. refl;
    failures = refl;
    sound = tt;
    same_cancelled = refl;
    same_closed = refl;
    same_unsent = refl;
    queue_stays = λ d. d;
    left = λ d _. absurd (cc (c, d));
    stops = λ _. refl;
  }
  WorkerStep-Keeps (calls s file m o k r h) (c, live) = calls-Keeps s file m o k r h (c r) live
  WorkerStep-Keeps (ends s file m outcome) (a, live) = ends-Keeps s file m outcome a live
