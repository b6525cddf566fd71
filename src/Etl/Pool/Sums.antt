-- ===== src/Etl/Pool/Sums.antt =====
-- The sums over the five workers and the lists of files of internal/etl/worker_pool.go.
use go_drive_etl.Common.{
  ℕ, true, false, [], ◌∷◌, Bool, List, ◌++◌, ◌+◌, ◌||◌, ◌≡◌, arith, refl, All,
}
use go_drive_etl.Domain.{File}
use go_drive_etl.Etl.Pool.{Worker, idle, busy, gone}
use go_drive_etl.Etl.Pool.Balance.{one, count, held, failures_of, is_gone}

-- The sums over the workers.
unfoldable pub held_by : (File → Bool) → List Worker → ℕ
held_by p [] = 0
held_by p (w ∷ ws) = held p w + held_by p ws

unfoldable pub open_failures : List Worker → ℕ
open_failures [] = 0
open_failures (w ∷ ws) = failures_of w + open_failures ws

unfoldable pub any_gone : List Worker → Bool
any_gone [] = false
any_gone (w ∷ ws) = is_gone w || any_gone ws

abbrev pub has_workers : List Worker → Bool
has_workers [] = false
has_workers (w ∷ ws) = true

abbrev pub AllGone : List Worker → Type 0
AllGone ws = All (λ w. is_gone w ≡ true) ws

pub held_by-append :
    (p : File → Bool) (before : List Worker) (w : Worker) (after : List Worker)
    → held_by p (before ++ w ∷ after) ≡ held_by p before + held p w + held_by p after
unfolding held_by
held_by-append p [] w after = omega arith
held_by-append p (v ∷ before) w after = omega (arith, held_by-append p before w after)

pub open_failures-append :
    (before : List Worker) (w : Worker) (after : List Worker)
    → open_failures (before ++ w ∷ after)
      ≡ open_failures before + failures_of w + open_failures after
unfolding open_failures
open_failures-append [] w after = omega arith
open_failures-append (v ∷ before) w after = omega (arith, open_failures-append before w after)

pub any_gone-append :
    (before : List Worker) (w : Worker) (after : List Worker)
    → any_gone (before ++ w ∷ after) ≡ (is_gone w || (any_gone before || any_gone after))
unfolding any_gone
any_gone-append [] w after = ground arith
any_gone-append (v ∷ before) w after = ground (arith, any_gone-append before w after)

pub count-append :
    (p : File → Bool) (files : List File) (f : File)
    → count p (files ++ f ∷ []) ≡ count p files + one (p f)
unfolding count
count-append p [] f = omega arith
count-append p (g ∷ files) f = omega (arith, count-append p files f)

pub has_workers-append :
    (before : List Worker) (w : Worker) (after : List Worker)
    → has_workers (before ++ w ∷ after) ≡ true
has_workers-append [] w after = refl
has_workers-append (v ∷ before) w after = refl

pub count-unsent :
    (p : File → Bool) (unsent : List File) (f : File) (fs : List File)
    → unsent ≡ f ∷ fs
    → count p unsent ≡ one (p f) + count p fs
unfolding count
count-unsent p unsent f fs e = rw e

pub count-empty : (p : File → Bool) (files : List File) → files ≡ [] → count p files ≡ 0
unfolding count
count-empty p files e = rw e

pub held_by-AllGone : (p : File → Bool) (ws : List Worker) → AllGone ws → held_by p ws ≡ 0
unfolding held_by
held_by-AllGone p [] g = refl
held_by-AllGone p (gone ∷ ws) (_, g) = omega (arith, held_by-AllGone p ws g)
held_by-AllGone p (idle ∷ ws) (h, g) = cc
held_by-AllGone p (busy f m prog ∷ ws) (h, g) = cc

pub open_failures-AllGone : (ws : List Worker) → AllGone ws → open_failures ws ≡ 0
unfolding open_failures
open_failures-AllGone [] g = refl
open_failures-AllGone (gone ∷ ws) (_, g) = omega (arith, open_failures-AllGone ws g)
open_failures-AllGone (idle ∷ ws) (h, g) = cc
open_failures-AllGone (busy f m prog ∷ ws) (h, g) = cc

pub any_gone-AllGone : (ws : List Worker) → has_workers ws ≡ true → AllGone ws → any_gone ws ≡ true
unfolding any_gone
any_gone-AllGone [] h g = cc
any_gone-AllGone (w ∷ ws) h (e, g) = rw e
