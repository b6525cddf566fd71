-- ===== src/Common/Errors.antt =====
-- Go errors, as far as the code looks into them: the two errors of the package context, an API
-- error with its code, a message, and the wrappers of `fmt.Errorf("...%w", err)` and of
-- `stageError`.
use Prim.Native.Nat.{ℕ}
use mathlib.Core.Bool.{Bool, true, false}
use mathlib.Core.Option.{Option, none, some}
use mathlib.Core.List.{◌++◌}
use go_drive_etl.Common.Texts.{Text, codes}

pub data Error : Type 0 where
  canceled : Error
  deadline_exceeded : Error
  message : Text → Error
  api_error : ℕ → Text → Error
  wrapped : Text → Error → Error
  staged : Text → Error → Error

-- `err.Error()`.
unfoldable pub error_text : Error → Text
error_text canceled = codes "context canceled"
error_text deadline_exceeded = codes "context deadline exceeded"
error_text (message s) = s
error_text (api_error n s) = s
error_text (wrapped s e) = s ++ error_text e
error_text (staged stage e) = error_text e

-- `errors.Is(err, context.Canceled)`.
unfoldable pub is_canceled : Error → Bool
is_canceled canceled = true
is_canceled (wrapped s e) = is_canceled e
is_canceled (staged s e) = is_canceled e
is_canceled _ = false

-- `errors.Is(err, context.DeadlineExceeded)`.
unfoldable pub is_deadline_exceeded : Error → Bool
is_deadline_exceeded deadline_exceeded = true
is_deadline_exceeded (wrapped s e) = is_deadline_exceeded e
is_deadline_exceeded (staged s e) = is_deadline_exceeded e
is_deadline_exceeded _ = false

-- The code of the first `*googleapi.Error` that `errors.As` finds.
unfoldable pub as_api_error : Error → Option ℕ
as_api_error (api_error n s) = some n
as_api_error (wrapped s e) = as_api_error e
as_api_error (staged s e) = as_api_error e
as_api_error _ = none

-- A value and an error, of which one is there: `return nil, err` and `return v, nil`.
pub data Result {ℓ} (A : Type ℓ) : Type ℓ where
  ok : A → Result A
  err : Error → Result A

infixl 5 ◌>>=◌
abbrev pub ◌>>=◌ {ℓ κ} : {A : Type ℓ} {B : Type κ} → Result A → (A → Result B) → Result B
ok a >>= f = f a
err e >>= f = err e
