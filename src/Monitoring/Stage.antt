-- ===== src/Monitoring/Stage.antt =====
-- What cmd/worker/monitoring.go publishes of an error.
use go_drive_etl.Common.{
  refl, false, Text, inl, inr, ◌≡◌, error_text, Error, is_empty, Option-cases, message, Bool-cases,
}
use go_drive_etl.Monitoring.{
  RunMetadata, capture_failure, public_run_error, stage_from_error, as_stage_error, public_text,
  with_stage,
}

stage_from_error-named : (e : Error) → is_empty (stage_from_error e) ≡ false
unfolding stage_from_error
stage_from_error-named e = elim (Option-cases (as_stage_error e)) [
  | inl h ↦ rw h
  | inr (s, h) ↦ rw h (elim (Bool-cases (is_empty s)) [ inl k ↦ rw k | inr k ↦ rw (k, k) ])
]

stage_from_error-with_stage :
    (stage : Text) (e : Error)
    → is_empty stage ≡ false
    → stage_from_error (with_stage stage e) ≡ stage
unfolding stage_from_error as_stage_error
stage_from_error-with_stage stage e h = rw h

-- What `main` sends of an error to Sentry is the same for all errors of one stage: the stage is
-- kept, and of the error's own text nothing is in the report.
pub capture_failure-public :
    (e : Error) (metadata : RunMetadata)
    → ((capture_failure (public_run_error e) metadata).stage ≡ stage_from_error e)
      × ((capture_failure (public_run_error e) metadata).exception ≡ public_text)
      × ((f : Error)
          → stage_from_error f ≡ stage_from_error e
          → capture_failure (public_run_error f) metadata
            ≡ capture_failure (public_run_error e) metadata)
unfolding capture_failure public_run_error error_text
capture_failure-public e metadata = (
  stage_from_error-with_stage (stage_from_error e) (message public_text) (stage_from_error-named e),
  refl,
  λ f h. rw h,
)
