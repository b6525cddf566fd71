-- ===== src/Monitoring.antt =====
-- cmd/worker/monitoring.go: the stage of an error, what is published of it, and the metadata of a
-- run. The environment is a function from names to values, "" where a variable is not set.
pub mod Stage
mod Tests
use go_drive_etl.Common.{
  ℕ, zero, suc, none, some, true, false, [], ◌∷◌, ok, err, Text, codes, Error, Option, Result, List,
  Bool, if◌then◌else◌, error_text, is_empty, message, staged, wrapped,
}

-- `withStage(stage, err)`.
abbrev pub with_stage : Text → Error → Error
with_stage = staged

-- The stage of the first `*stageError` that `errors.As` finds.
unfoldable pub as_stage_error : Error → Option Text
as_stage_error (staged stage e) = some stage
as_stage_error (wrapped s e) = as_stage_error e
as_stage_error _ = none

abbrev pub startup : Text
startup = codes "startup"

abbrev stage_or_startup : Option Text → Text
stage_or_startup none = startup
stage_or_startup (some stage) = if is_empty stage then startup else stage

unfoldable pub stage_from_error : Error → Text
stage_from_error e = stage_or_startup (as_stage_error e)

abbrev pub public_text : Text
public_text = codes "ETL の実行に失敗しました"

unfoldable pub public_run_error : Error → Error
public_run_error e = with_stage (stage_from_error e) (message public_text)

abbrev pub recovered_panic_error : Error
recovered_panic_error = with_stage startup (message (codes "予期しない panic"))

pub record RunMetadata : Type 0 where
  pub environment : Text
  pub release : Text
  pub load_id : Text

-- `if v == "" { v = fallback }`.
abbrev or_else : Text → Text → Text
or_else v fallback = if is_empty v then fallback else v

-- `newLoadID`; the argument is the outcome of reading 16 random bytes, in hexadecimal.
unfoldable pub new_load_id : Result Text → Text
new_load_id (ok id) = id
new_load_id (err e) = codes "unavailable"

unfoldable pub new_run_metadata : (Text → Text) → Text → Result Text → RunMetadata
new_run_metadata getenv build_release random = record {
  environment = or_else (getenv (codes "SENTRY_ENVIRONMENT")) (codes "local");
  release = or_else (or_else (getenv (codes "SENTRY_RELEASE")) build_release) (codes "unknown");
  load_id = new_load_id random;
}

-- The tags that `captureFailure` sets, and the exception that it sends.
pub record Report : Type 0 where
  pub stage : Text
  pub environment : Text
  pub release : Text
  pub load_id : Text
  pub exception : Text

unfoldable pub capture_failure : Error → RunMetadata → Report
capture_failure e metadata = record {
  stage = stage_from_error e;
  environment = metadata.environment;
  release = metadata.release;
  load_id = metadata.load_id;
  exception = error_text e;
}

-- An event before it is sent; `E` is all that the code does not look into.
pub record Event (E : Type 0) : Type 0 where
  pub user : Option Text
  pub request : Option Text
  pub breadcrumbs : List Text
  pub rest : E

-- `BeforeSend`.
unfoldable pub before_send : {E : Type 0} → Event E → Event E
before_send event = record event { user = none; request = none; breadcrumbs = [] }

-- The fields that `sentryOptions` sets.
pub record ClientOptions (E : Type 0) : Type 0 where
  pub dsn : Text
  pub environment : Text
  pub release : Text
  pub send_default_pii : Bool
  pub max_breadcrumbs : ℕ
  pub attach_stacktrace : Bool
  pub before : Event E → Event E

unfoldable pub sentry_options : {E : Type 0} → (Text → Text) → RunMetadata → ClientOptions E
unfolding before_send
sentry_options getenv metadata = record {
  dsn = getenv (codes "SENTRY_DSN");
  environment = metadata.environment;
  release = metadata.release;
  send_default_pii = false;
  max_breadcrumbs = 0;
  attach_stacktrace = true;
  before = before_send;
}
