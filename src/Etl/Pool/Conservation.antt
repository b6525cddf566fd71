-- ===== src/Etl/Pool/Conservation.antt =====
-- The whole pool of `Run` in internal/etl/worker_pool.go: no file is lost or taken twice, the
-- counter of failures is right, and the result says whether there were any.
use go_drive_etl.Common.{
  none, true, false, [], ◌∷◌, Text, Bool, List, ◌++◌, ◌+◌, ◌||◌, ◌≡◌, ◌↔◌, ◌⊎◌, Bool-cases, inl,
  inr, arith, refl, All, All-at, All-replace, sym, ◌∙◌, ap,
}
use mathlib.Core.Path.{subst}
use go_drive_etl.Domain.{File}
use go_drive_etl.Retro.{SprintPolicy}
use go_drive_etl.Etl.Pool.{
  Worker, idle, busy, gone, Shared, Step, Steps, send, close, abort, cancel, acts, work, here,
  one_more, start, five_workers, run_result,
}
use go_drive_etl.Etl.Pool.Balance.{
  count, finished_count, failed_count, stopped_count, is_gone, IsSound, Keeps, WorkerStep-Keeps,
}
use go_drive_etl.Etl.Pool.Sums.{
  held_by, open_failures, any_gone, has_workers, AllGone, held_by-append, open_failures-append,
  any_gone-append, count-append, has_workers-append, count-unsent, count-empty, held_by-AllGone,
  open_failures-AllGone, any_gone-AllGone,
}

IsSound-cancelled : (c : Bool) (ws : List Worker) → All (IsSound c) ws → All (IsSound true) ws
IsSound-cancelled c [] v = tt
IsSound-cancelled c (idle ∷ ws) (h, v) = (tt, IsSound-cancelled c ws v)
IsSound-cancelled c (gone ∷ ws) (h, v) = (tt, IsSound-cancelled c ws v)
IsSound-cancelled c (busy f m prog ∷ ws) ((h, live), v) = ((h, λ e. refl), IsSound-cancelled c ws v)

-- What every state of a run over the files satisfies.
pub record IsBalanced (files : List File) (s : Shared) (ws : List Worker) : Type 0 where
  pub conserved :
      (p : File → Bool)
      → count p s.unsent + count p s.queue + held_by p ws + finished_count p s.finished
        ≡ count p files
  failures : s.failed_files ≡ open_failures ws + failed_count s.finished
  sound : All (IsSound s.cancelled) ws
  left : s.cancelled ≡ false → any_gone ws ≡ true → (s.closed ≡ true) × (s.queue ≡ [])
  sent : s.cancelled ≡ false → s.closed ≡ true → s.unsent ≡ []
  stops : s.cancelled ≡ false → stopped_count s.finished ≡ 0
  staffed : has_workers ws ≡ true

pub start-IsBalanced : (files : List File) → IsBalanced files (start files) five_workers
unfolding count finished_count failed_count stopped_count held_by open_failures any_gone
start-IsBalanced files = record {
  conserved = λ p. omega arith;
  failures = refl;
  sound = (tt, (tt, (tt, (tt, (tt, tt)))));
  left = λ _ e. cc;
  sent = λ _ e. cc;
  stops = λ _. refl;
  staffed = refl;
}

run_result-none : (s : Shared) → s.cancelled ≡ false → (run_result s ≡ none) ↔ (s.failed_files ≡ 0)
unfolding run_result
run_result-none s live = ground arith

-- A worker that returned leaves the channel closed and empty.
work-left :
    (s s' : Shared) (before after : List Worker) (w w' : Worker)
    → Keeps s w s' w'
    → (any_gone (before ++ w ∷ after) ≡ true → (s.closed ≡ true) × (s.queue ≡ []))
    → s.cancelled ≡ false
    → any_gone (before ++ w' ∷ after) ≡ true
    → (s'.closed ≡ true) × (s'.queue ≡ [])
work-left s s' before after w w' k h live g =
    let (closed, empty) = at_before (Bool-cases (is_gone w')) in
    (k.same_closed ∙ closed, k.queue_stays empty)
  where
    others : any_gone before || any_gone after ≡ true → (s.closed ≡ true) × (s.queue ≡ [])
    others e = h (any_gone-append before w after ∙ ground (arith, e))

    itself :
        (is_gone w ≡ true) ⊎ ((s.closed ≡ true) × (s.queue ≡ []))
        → (s.closed ≡ true) × (s.queue ≡ [])
    itself (inl e) = h (any_gone-append before w after ∙ rw e)
    itself (inr e) = e

    at_before : (is_gone w' ≡ true) ⊎ (is_gone w' ≡ false) → (s.closed ≡ true) × (s.queue ≡ [])
    at_before (inl e) = itself (k.left live e)
    at_before (inr e) = others (ground (arith, e, any_gone-append before w' after, g))

work-IsBalanced :
    (files : List File) (s s' : Shared) (before after : List Worker) (w w' : Worker)
    → Keeps s w s' w'
    → IsBalanced files s (before ++ w ∷ after)
    → IsBalanced files s' (before ++ w' ∷ after)
work-IsBalanced files s s' before after w w' k b = record {
  conserved = λ p. omega (
    arith,
    k.files p,
    b.conserved p,
    held_by-append p before w after,
    held_by-append p before w' after,
    ap (count p) k.same_unsent,
  );
  failures = omega (
    arith,
    k.failures,
    b.failures,
    open_failures-append before w after,
    open_failures-append before w' after,
  );
  sound =
      All-replace (IsSound s'.cancelled) before w w' after
        (subst (λ c. All (IsSound c) (before ++ w ∷ after)) (sym k.same_cancelled) b.sound) k.sound;
  left = λ live g.
      work-left s s' before after w w' k (b.left (sym k.same_cancelled ∙ live))
        (sym k.same_cancelled ∙ live) g;
  sent = λ live c. k.same_unsent ∙ b.sent (sym k.same_cancelled ∙ live) (sym k.same_closed ∙ c);
  stops = λ live. k.stops (sym k.same_cancelled ∙ live) ∙ b.stops (sym k.same_cancelled ∙ live);
  staffed = has_workers-append before w' after;
}

module _ (hash : Text → Text) (policy : SprintPolicy) (files : List File) where
  abbrev pub Balanced : Shared × List Worker → Type 0
  Balanced x = IsBalanced files x.0 x.1

  Step-Balanced : {x y : Shared × List Worker} → Step hash policy x y → Balanced x → Balanced y
  Step-Balanced (acts (send s ws f fs e room c)) b = record {
    conserved =
        λ p. omega (arith, b.conserved p, count-unsent p s.unsent f fs e, count-append p s.queue f);
    failures = b.failures;
    sound = b.sound;
    left = λ live g. absurd (cc ((b.left live g).0, c));
    sent = λ live d. cc;
    stops = b.stops;
    staffed = b.staffed;
  }
  Step-Balanced (acts (close s ws e c)) b = record {
    conserved = b.conserved;
    failures = b.failures;
    sound = b.sound;
    left = λ live g. absurd (cc ((b.left live g).0, c));
    sent = λ live d. e;
    stops = b.stops;
    staffed = b.staffed;
  }
  Step-Balanced (acts (abort s ws x c)) b = record {
    conserved = b.conserved;
    failures = b.failures;
    sound = b.sound;
    left = λ live g. absurd (cc (x, live));
    sent = λ live d. absurd (cc (x, live));
    stops = b.stops;
    staffed = b.staffed;
  }
  Step-Balanced (cancel s ws) b = record {
    conserved = b.conserved;
    failures = b.failures;
    sound = IsSound-cancelled s.cancelled ws b.sound;
    left = λ live g. cc;
    sent = λ live d. cc;
    stops = λ live. cc;
    staffed = b.staffed;
  }
  Step-Balanced (acts (work s s' before after w w' step)) b =
      work-IsBalanced files s s' before after w w'
        (WorkerStep-Keeps hash policy step (All-at (IsSound s.cancelled) before w after b.sound)) b

  pub Steps-Balanced :
      {x y : Shared × List Worker} → Steps hash policy x y → Balanced x → Balanced y
  Steps-Balanced here b = b
  Steps-Balanced (one_more steps step) b = Step-Balanced step (Steps-Balanced steps b)

  -- Workers return before the end of the context only when the channel is closed.
  pub run-closed :
      {s : Shared} {ws : List Worker}
      → Steps hash policy (start files, five_workers) (s, ws)
      → s.cancelled ≡ false
      → AllGone ws
      → s.closed ≡ true
  run-closed {s} {ws} steps live all =
      let b = Steps-Balanced steps (start-IsBalanced files) in
      (b.left live (any_gone-AllGone ws b.staffed all)).0

  -- When all workers have returned and the context is not done, every file of the list was
  -- finished, as often as it is in the list, for none the work was given up, the counter is the
  -- number of those that failed, and `Run` returns an error exactly if there are any: whatever
  -- the order in which the goroutines acted, and whatever the services answered.
  pub run-Conserved :
      {s : Shared} {ws : List Worker}
      → Steps hash policy (start files, five_workers) (s, ws)
      → s.cancelled ≡ false
      → AllGone ws
      → ((p : File → Bool) → finished_count p s.finished ≡ count p files)
        × (stopped_count s.finished ≡ 0)
        × (s.failed_files ≡ failed_count s.finished)
        × ((run_result s ≡ none) ↔ (failed_count s.finished ≡ 0))
  run-Conserved {s} {ws} steps live all =
      let b = Steps-Balanced steps (start-IsBalanced files) in
      let (closed, empty) = b.left live (any_gone-AllGone ws b.staffed all) in
      let unsent = b.sent live closed in
      let same : s.failed_files ≡ failed_count s.finished =
        omega (arith, b.failures, open_failures-AllGone ws all) in
      (
        (λ p. omega (
          arith,
          b.conserved p,
          held_by-AllGone p ws all,
          count-empty p s.unsent unsent,
          count-empty p s.queue empty,
        )),
        b.stops live,
        same,
        (
          (λ h. sym same ∙ (run_result-none s live).0 h),
          λ h. (run_result-none s live).1 (same ∙ h),
        ),
      )
