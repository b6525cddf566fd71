-- ===== src/Etl/Program.antt =====
-- The code of internal/etl/worker_pool.go calls services, reads the context and the clock, and
-- counts in atomics. A program is what it does as a tree: a call, and for each reply the rest. So
-- the order of the calls is in the program, the replies are anybody's, and the calls of several
-- workers can interleave.
use go_drive_etl.Common.{ℕ, Text, Option, Error, Result, List, Bool}
use go_drive_etl.Domain.{SyncStatus}

-- `bigquery.Value`, as far as rows hold it.
pub data Value : Type 0 where
  text : Text → Value
  int : ℕ → Value
  negative : ℕ → Value
  bool : Bool → Value
  time : ℕ → Value

abbrev pub Row : Type 0
Row = List (Text × Value)

pub data Op : Type 0 where
  -- `DownloadFile` and `DownloadGoogleWorkspaceFile`
  download : Text → Op
  download_workspace : Text → Text → Op
  -- `ctx.Err()`
  context_err : Op
  -- `InsertRows`
  insert_rows : Text → List Row → Op
  -- `waitForBigQueryRetry`
  wait : ℕ → Op
  -- `UpdateStatus`
  update_status : Text → SyncStatus → Op
  -- `time.Now().UTC()`
  read_clock : Op
  -- `failedFiles.Add(1)` and `failedStatusUpdates.Add(1)`
  add_failed : Op
  add_failed_update : Op

abbrev pub Reply : Op → Type 0
Reply (download id) = Result Text
Reply (download_workspace id mime_type) = Result Text
Reply context_err = Option Error
Reply (insert_rows table rows) = Option Error
Reply (wait delay) = Option Error
Reply (update_status id status) = Option Error
Reply read_clock = ℕ
Reply add_failed = Unit {0}
Reply add_failed_update = Unit {0}

pub data Prog (A : Type 0) : Type 0 where
  ret : A → Prog A
  call : (o : Op) → (Reply o → Prog A) → Prog A

abbrev pub perform : (o : Op) → Prog (Reply o)
perform o = call o (λ r. ret r)

infixl 5 ◌>>=◌ ◌>>◌
abbrev pub ◌>>=◌ : {A B : Type 0} → Prog A → (A → Prog B) → Prog B
ret a >>= f = f a
call o k >>= f = call o (λ r. k r >>= f)

abbrev pub ◌>>◌ : {A B : Type 0} → Prog A → Prog B → Prog B
p >> q = p >>= λ _. q

-- Running a program against services with a state of their own.
abbrev pub exec : {W A : Type 0} → ((o : Op) → W → Reply o × W) → Prog A → W → A × W
exec h (ret a) w = (a, w)
exec h (call o k) w = let (r, w') = h o w in exec h (k r) w'

-- An observer of the calls and the replies. `Checks` holds of a program if, on every run, whatever
-- the replies, the observer ends in a state of which `post` holds, with the result.
module _ {M : Type 0} (observe : M → (o : Op) → Reply o → M) where
  abbrev pub Checks : {A : Type 0} → (M → A → Type 0) → M → Prog A → Type 0
  Checks post m (ret a) = post m a
  Checks post m (call o k) = (r : Reply o) → Checks post (observe m o r) (k r)

  pub Checks-bind :
      {A B : Type 0} (mid : M → A → Type 0) (post : M → B → Type 0) (m : M) (p : Prog A)
      (f : A → Prog B)
      → Checks mid m p
      → ((m' : M) (a : A) → mid m' a → Checks post m' (f a))
      → Checks post m (p >>= f)
  Checks-bind mid post m (ret a) f h k = k m a h
  Checks-bind mid post m (call o q) f h k =
      λ r. Checks-bind mid post (observe m o r) (q r) f (h r) k

  pub Checks-weaken :
      {A : Type 0} (mid post : M → A → Type 0) (m : M) (p : Prog A)
      → Checks mid m p
      → ((m' : M) (a : A) → mid m' a → post m' a)
      → Checks post m p
  Checks-weaken mid post m (ret a) h k = k m a h
  Checks-weaken mid post m (call o q) h k =
      λ r. Checks-weaken mid post (observe m o r) (q r) (h r) k

-- Each call of a program is one that `P` permits, whatever the replies.
module _ (P : Op → Type 0) where
  abbrev pub AllCalls : {A : Type 0} → Prog A → Type 0
  AllCalls (ret a) = Unit
  AllCalls (call o k) = P o × ((r : Reply o) → AllCalls (k r))

  pub AllCalls-bind :
      {A B : Type 0} (p : Prog A) (f : A → Prog B)
      → AllCalls p
      → ((a : A) → AllCalls (f a))
      → AllCalls (p >>= f)
  AllCalls-bind (ret a) f h g = g a
  AllCalls-bind (call o k) f (h, rest) g = (h, λ r. AllCalls-bind (k r) f (rest r) g)
