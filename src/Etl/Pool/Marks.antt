-- ===== src/Etl/Pool/Marks.antt =====
-- The statuses that a state store shows over a run of the pool of internal/etl/worker_pool.go.
use mathlib.Core.Path.{subst}
use go_drive_etl.Common.{
  none, true, false, ◌∷◌, Text, Bool, List, Option, ◌++◌, ◌+◌, ◌≤◌, ◌≡◌, ◌⊎◌, Bool-cases, inl, inr,
  arith, refl, All, All-at, All-replace, sym, ◌∙◌, ap, if◌then◌else◌, ltb,
}
use go_drive_etl.Domain.{File, SyncStatus, status_done}
use go_drive_etl.Retro.{SprintPolicy}
use go_drive_etl.Etl.Program.{Op, Reply, Prog, Checks, ret, call}
use go_drive_etl.Etl.Worker.{Outcome, process_file}
use go_drive_etl.Etl.Worker.Accounting.{Tally, observe}
use go_drive_etl.Etl.Worker.Statuses.{
  set_to, track, Ends, track-untouched, process_file-Avoids, process_file-Ends,
}
use go_drive_etl.Etl.Pool.{
  Worker, idle, busy, gone, Shared, WorkerStep, takes, leave, interrupted, calls, ends, Step, Steps,
  send, close, abort, cancel, acts, work, here, one_more, start, five_workers, run_result, counted,
  next_state,
}
use go_drive_etl.Etl.Pool.Balance.{one, count, finished_count}
use go_drive_etl.Etl.Pool.Sums.{held_by, count-unsent, AllGone, held_by-append, held_by-AllGone}
use go_drive_etl.Etl.Pool.Conservation.{IsBalanced, start-IsBalanced, Steps-Balanced, run-Conserved}
use go_drive_etl.Etl.Pool.Followers.{
  has_id, Follows, Follows-call, Ended, Ended-others, counted-finished, next_state-Follows,
  held-fewer, ends-held, Ended-done,
}

unfoldable pub is_listed : Text → List File → Bool
is_listed key files = ltb 0 (count (has_id key) files)

-- What every state of a run satisfies, for the status under an ID that was `old` at its start.
record IsMarked (key : Text) (old now : Option SyncStatus) (s : Shared) (ws : List Worker)
    : Type 0 where
  follows : All (Follows key old now) ws
  untouched : held_by (has_id key) ws + finished_count (has_id key) s.finished ≡ 0 → now ≡ old
  ended : Ended key old now s.finished

-- A file that is the only one under its ID is taken before the status was touched.
taken-first :
    (key : Text) (files : List File) (s : Shared) (ws : List Worker) (file : File)
    (rest : List File)
    → count (has_id key) files ≤ 1
    → has_id key file ≡ true
    → s.queue ≡ file ∷ rest
    → IsBalanced files s ws
    → held_by (has_id key) ws + finished_count (has_id key) s.finished ≡ 0
taken-first key files s ws file rest once own e b = omega (
  arith,
  once,
  b.conserved (has_id key),
  count-unsent (has_id key) s.queue file rest e,
  ap one own,
)

run_result-live : (s : Shared) → run_result s ≡ none → s.cancelled ≡ false
unfolding run_result
run_result-live s h = ground arith

module _ (hash : Text → Text) (policy : SprintPolicy) where
  -- What a step leaves of the status under an ID: only the calls touch it.
  abbrev pub after_work :
      {s s' : Shared} {w w' : Worker}
      → WorkerStep hash policy s w s' w'
      → Text
      → Option SyncStatus
      → Option SyncStatus
  after_work (takes s file files e) key old = old
  after_work (leave s e c) key old = old
  after_work (interrupted s c) key old = old
  after_work (calls s file m o k r h) key old = track key old o r
  after_work (ends s file m outcome) key old = old

  abbrev pub after_step :
      {x y : Shared × List Worker}
      → Step hash policy x y
      → Text
      → Option SyncStatus
      → Option SyncStatus
  after_step (acts (send s ws f fs e room c)) key old = old
  after_step (acts (close s ws e c)) key old = old
  after_step (acts (abort s ws x c)) key old = old
  after_step (acts (work s s' before after w w' step)) key old = after_work step key old
  after_step (cancel s ws) key old = old

  -- The status under an ID behind a run, by the replies of the store in it.
  abbrev pub shown :
      {x y : Shared × List Worker}
      → Steps hash policy x y
      → Text
      → Option SyncStatus
      → Option SyncStatus
  shown here key old = old
  shown (one_more steps step) key old = after_step step key (shown steps key old)

  module _ (files : List File) (key : Text) (old now : Option SyncStatus)
      (once : count (has_id key) files ≤ 1) where
    call-IsMarked :
        (before after : List Worker) (s : Shared) (f : File) (t : Tally) (o : Op)
        (k : Reply o → Prog Outcome) (r : Reply o)
        → IsBalanced files s (before ++ busy f t (call o k) ∷ after)
        → IsMarked key old now s (before ++ busy f t (call o k) ∷ after)
        → (has_id key f ≡ true) ⊎ (has_id key f ≡ false)
        → IsMarked key old
            (track key now o r)
            (counted o s)
            (before ++ busy f (observe f t o r) (k r) ∷ after)
    call-IsMarked before after s f t o k r b m (inl own) =
        let at_f = held_by-append (has_id key) before (busy f t (call o k)) after in
        let behind = held_by-append (has_id key) before (busy f (observe f t o r) (k r)) after in
        record {
          follows =
              Follows-call key old now (track key now o r) before after _ _
                (omega (arith, once, b.conserved (has_id key))) (ap one own) m.follows
                (
                  (λ _. (All-at (Follows key old now) before _ after m.follows).0 own r),
                  λ other. absurd (cc (own, other)),
                );
          untouched = λ z. absurd (omega (arith, z, behind, ap one own));
          ended = Ended-others key old (track key now o r) (counted o s).finished (
              ap (finished_count (has_id key)) (counted-finished o s)
              ∙ omega (arith, once, b.conserved (has_id key), at_f, ap one own));
        }
    call-IsMarked before after s f t o k r b m (inr other) =
        let (skips, rest) = (All-at (Follows key old now) before _ after m.follows).1 other in
        let same = track-untouched key now o r skips in
        subst
          (λ x. IsMarked key old x (counted o s) (before ++ busy f (observe f t o r) (k r) ∷ after))
          (sym same)
          record {
            follows =
                All-replace (Follows key old now) before (busy f t (call o k)) _ after m.follows
                  ((λ own. absurd (cc (own, other))), λ _. rest r);
            untouched = λ z. m.untouched (
                held-fewer (has_id key) before after (busy f t (call o k))
                  (busy f (observe f t o r) (k r)) (finished_count (has_id key) s.finished)
                  (omega arith)
                  (omega (arith, z, ap (finished_count (has_id key)) (counted-finished o s))));
            ended = subst (Ended key old now) (sym (counted-finished o s)) m.ended;
          }

    work-IsMarked :
        {s s' : Shared} (before after : List Worker) {w w' : Worker}
        (step : WorkerStep hash policy s w s' w')
        → IsBalanced files s (before ++ w ∷ after)
        → IsMarked key old now s (before ++ w ∷ after)
        → IsMarked key old (after_work step key now) s' (before ++ w' ∷ after)
    work-IsMarked before after (takes s file rest e) b m = record {
      follows = All-replace (Follows key old now) before idle _ after m.follows (
        (λ own.
            subst (λ x. Checks (track key) (Ends old) x (process_file hash policy file))
              (sym (
                m.untouched
                  (taken-first key files s (before ++ idle ∷ after) file rest once own e b)))
              (process_file-Ends file key own old hash policy)),
        λ other. process_file-Avoids file key other hash policy,
      );
      untouched = λ z. m.untouched (
          held-fewer (has_id key) before after idle _ (finished_count (has_id key) s.finished)
            (omega arith) z);
      ended = m.ended;
    }
    work-IsMarked before after (leave s e c) b m = record {
      follows = All-replace (Follows key old now) before idle gone after m.follows tt;
      untouched = λ z. m.untouched (
          held-fewer (has_id key) before after idle gone (finished_count (has_id key) s.finished)
            (omega arith) z);
      ended = m.ended;
    }
    work-IsMarked before after (interrupted s c) b m = record {
      follows = All-replace (Follows key old now) before idle gone after m.follows tt;
      untouched = λ z. m.untouched (
          held-fewer (has_id key) before after idle gone (finished_count (has_id key) s.finished)
            (omega arith) z);
      ended = m.ended;
    }
    work-IsMarked before after (calls s file t o k r h) b m =
        call-IsMarked before after s file t o k r b m (Bool-cases (has_id key file))
    work-IsMarked before after (ends s file t outcome) b m =
        let (own_case, other_case) = All-at (Follows key old now) before _ after m.follows in
        record {
          follows =
              All-replace (Follows key old now) before (busy file t (ret outcome))
                (next_state outcome) after m.follows (next_state-Follows key old now outcome);
          untouched =
              λ z. m.untouched (ends-held (has_id key) before after file t outcome s.finished z);
          ended = (own_case, m.ended);
        }

    Step-IsMarked :
        {x y : Shared × List Worker} (step : Step hash policy x y)
        → IsBalanced files x.0 x.1
        → IsMarked key old now x.0 x.1
        → IsMarked key old (after_step step key now) y.0 y.1
    Step-IsMarked (acts (send s ws f fs e room c)) b m = record {
      follows = m.follows;
      untouched = m.untouched;
      ended = m.ended;
    }
    Step-IsMarked (acts (close s ws e c)) b m = record {
      follows = m.follows;
      untouched = m.untouched;
      ended = m.ended;
    }
    Step-IsMarked (acts (abort s ws x c)) b m = record {
      follows = m.follows;
      untouched = m.untouched;
      ended = m.ended;
    }
    Step-IsMarked (cancel s ws) b m = record {
      follows = m.follows;
      untouched = m.untouched;
      ended = m.ended;
    }
    Step-IsMarked (acts (work s s' before after w w' step)) b m =
        work-IsMarked before after step b m

  module _ (files : List File) (key : Text) (old : Option SyncStatus)
      (once : count (has_id key) files ≤ 1) where
    Steps-IsMarked :
        {x y : Shared × List Worker} (steps : Steps hash policy x y)
        → IsBalanced files x.0 x.1
        → IsMarked key old old x.0 x.1
        → IsMarked key old (shown steps key old) y.0 y.1
    Steps-IsMarked here b m = m
    Steps-IsMarked (one_more steps step) b m =
        Step-IsMarked files key old (shown steps key old) once step
          (Steps-Balanced hash policy files steps b) (Steps-IsMarked steps b m)

    start-IsMarked : IsMarked key old old (start files) five_workers
    start-IsMarked = record {
      follows = (tt, (tt, (tt, (tt, (tt, tt)))));
      untouched = λ _. refl;
      ended = tt;
    }

    -- At the end of a run for which `Run` returns no error, the status of an ID that the list of
    -- files has at most once, as the replies to the updates of the run make it: it is `done`
    -- where the list has the ID and the store knows it, and where the list does not have it what
    -- it was before; whatever the order in which the goroutines acted and whatever the services
    -- replied.
    pub run-Marks :
        {s : Shared} {ws : List Worker}
        (steps : Steps hash policy (start files, five_workers) (s, ws))
        → AllGone ws
        → run_result s ≡ none
        → shown steps key old ≡ (if is_listed key files then set_to status_done old else old)
    unfolding is_listed
    run-Marks {s} {ws} steps all result =
        let m = Steps-IsMarked steps (start-IsBalanced files) start-IsMarked in
        let (all_finished, none_stopped, same, succeeds) =
          run-Conserved hash policy files steps (run_result-live s result) all in
        elim (Bool-cases (ltb 0 (count (has_id key) files))) [
          | inl listed ↦ rw listed (
              Ended-done key old (shown steps key old) s.finished (succeeds.0 result) none_stopped
                (all_finished (has_id key) ∙ ground (arith, once, listed)) m.ended)
          | inr absent ↦
              let nobody : count (has_id key) files ≡ 0 = ground (arith, absent) in
              rw absent (
                m.untouched (
                  omega (
                    arith,
                    held_by-AllGone (has_id key) ws all,
                    all_finished (has_id key),
                    nobody,
                  )))
        ]
