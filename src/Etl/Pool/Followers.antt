-- ===== src/Etl/Pool/Followers.antt =====
-- What the workers of internal/etl/worker_pool.go that are busy, and the files that were
-- finished, say of the status under one ID.

use go_drive_etl.Common.{
  ℕ, true, false, [], ◌∷◌, Text, Bool, List, Option, ◌++◌, ◌+◌, ◌≤◌, ◌≡◌, Bool-cases, inl, inr,
  arith, refl, All, ap, text_eq,
}
use go_drive_etl.Domain.{File, SyncStatus, status_done}
use go_drive_etl.Etl.Program.{
  Op, Checks, ret, download, download_workspace, context_err, insert_rows, wait, update_status,
  read_clock, add_failed, add_failed_update,
}
use go_drive_etl.Etl.Worker.{Outcome, stopped, failed, completed}
use go_drive_etl.Etl.Worker.Accounting.{Tally}
use go_drive_etl.Etl.Worker.Statuses.{set_to, track, Avoids, Ends}
use go_drive_etl.Etl.Pool.{Worker, idle, busy, gone, Shared, counted, next_state}
use go_drive_etl.Etl.Pool.Balance.{one, held, finished_count, failed_count, stopped_count}
use go_drive_etl.Etl.Pool.Sums.{held_by, held_by-append}

-- Whether a file has the ID.
abbrev pub has_id : Text → File → Bool
has_id key f = text_eq f.drive_file_id key

-- What a worker that is busy may still do to the status under an ID.
abbrev pub Follows : Text → Option SyncStatus → Option SyncStatus → Worker → Type 0
Follows key old now (busy f m prog) =
    (has_id key f ≡ true → Checks (track key) (Ends old) now prog)
    × (has_id key f ≡ false → Avoids key prog)
Follows key old now _ = Unit

pub Follows-others :
    (key : Text) (old now now' : Option SyncStatus) (ws : List Worker)
    → held_by (has_id key) ws ≡ 0
    → All (Follows key old now) ws
    → All (Follows key old now') ws
unfolding held_by
Follows-others key old now now' [] e v = tt
Follows-others key old now now' (idle ∷ ws) e (h, v) =
    (tt, Follows-others key old now now' ws (omega (arith, e)) v)
Follows-others key old now now' (gone ∷ ws) e (h, v) =
    (tt, Follows-others key old now now' ws (omega (arith, e)) v)
Follows-others key old now now' (busy f m prog ∷ ws) e ((h, g), v) = (
  (λ own. absurd (omega (arith, e, ap one own)), g),
  Follows-others key old now now' ws (omega (arith, e)) v,
)

-- A call for one file, where it is the only one under the ID that the workers hold.
pub Follows-call :
    (key : Text) (old now now' : Option SyncStatus) (before after : List Worker) (w w' : Worker)
    → held_by (has_id key) (before ++ w ∷ after) ≤ 1
    → held (has_id key) w ≡ 1
    → All (Follows key old now) (before ++ w ∷ after)
    → Follows key old now' w'
    → All (Follows key old now') (before ++ w' ∷ after)
unfolding held_by
Follows-call key old now now' [] after w w' most own (h, v) g =
    (g, Follows-others key old now now' after (omega (arith, most, own)) v)
Follows-call key old now now' (u ∷ before) after w w' most own (h, v) g =
    let rest = held_by-append (has_id key) before w after in
    (
      (Follows-others key old now now' (u ∷ []) (omega (arith, most, own, rest)) (h, tt)).0,
      Follows-call key old now now' before after w w' (omega (arith, most)) own v g,
    )

-- The files that were finished under the ID ended as their outcomes say.
abbrev pub Ended : Text → Option SyncStatus → Option SyncStatus → List (File × Outcome) → Type 0
Ended key old now [] = Unit
Ended key old now ((f, outcome) ∷ done) =
    (has_id key f ≡ true → Ends old now outcome) × Ended key old now done

pub Ended-others :
    (key : Text) (old now : Option SyncStatus) (done : List (File × Outcome))
    → finished_count (has_id key) done ≡ 0
    → Ended key old now done
unfolding finished_count
Ended-others key old now [] e = tt
Ended-others key old now ((f, outcome) ∷ done) e = (
  (λ own. absurd (omega (arith, e, ap one own))),
  Ended-others key old now done (omega (arith, e)),
)

pub counted-finished : (o : Op) (s : Shared) → (counted o s).finished ≡ s.finished
unfolding counted
counted-finished (download id) s = refl
counted-finished (download_workspace id mime_type) s = refl
counted-finished context_err s = refl
counted-finished (insert_rows table rows) s = refl
counted-finished (wait delay) s = refl
counted-finished (update_status id status) s = refl
counted-finished read_clock s = refl
counted-finished add_failed s = refl
counted-finished add_failed_update s = refl

pub next_state-Follows :
    (key : Text) (old now : Option SyncStatus) (outcome : Outcome)
    → Follows key old now (next_state outcome)
unfolding next_state
next_state-Follows key old now stopped = tt
next_state-Follows key old now failed = tt
next_state-Follows key old now completed = tt

pub held-fewer :
    (p : File → Bool) (before after : List Worker) (w w' : Worker) (n : ℕ)
    → held p w ≤ held p w'
    → held_by p (before ++ w' ∷ after) + n ≡ 0
    → held_by p (before ++ w ∷ after) + n ≡ 0
held-fewer p before after w w' n h z =
    omega (arith, h, z, held_by-append p before w after, held_by-append p before w' after)

pub held-next_state : (p : File → Bool) (outcome : Outcome) → held p (next_state outcome) ≡ 0
unfolding next_state
held-next_state p stopped = refl
held-next_state p failed = refl
held-next_state p completed = refl

pub ends-held :
    (p : File → Bool) (before after : List Worker) (f : File) (t : Tally) (outcome : Outcome)
    (done : List (File × Outcome))
    → held_by p (before ++ next_state outcome ∷ after) + finished_count p ((f, outcome) ∷ done) ≡ 0
    → held_by p (before ++ busy f t (ret outcome) ∷ after) + finished_count p done ≡ 0
unfolding finished_count
ends-held p before after f t outcome done z = omega (
  arith,
  z,
  held-next_state p outcome,
  held_by-append p before (next_state outcome) after,
  held_by-append p before (busy f t (ret outcome)) after,
)

-- Where all files were completed, so was the one under the ID.
pub Ended-done :
    (key : Text) (old now : Option SyncStatus) (done : List (File × Outcome))
    → failed_count done ≡ 0
    → stopped_count done ≡ 0
    → finished_count (has_id key) done ≡ 1
    → Ended key old now done
    → now ≡ set_to status_done old
unfolding finished_count failed_count stopped_count
Ended-done key old now [] nf ns one_file e = absurd (omega (arith, one_file))
Ended-done key old now ((f, stopped) ∷ done) nf ns one_file e = absurd (omega (arith, ns))
Ended-done key old now ((f, failed) ∷ done) nf ns one_file e = absurd (omega (arith, nf))
Ended-done key old now ((f, completed) ∷ done) nf ns one_file (e, rest) =
    elim (Bool-cases (has_id key f)) [
      | inl own ↦ e own
      | inr other ↦
          Ended-done key old now done (omega (arith, nf)) (omega (arith, ns))
            (omega (arith, one_file, ap one other)) rest
    ]
