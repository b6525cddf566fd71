-- ===== src/Workflow/Stages.antt =====
-- The outcomes of `verify` of cmd/verify_gold/workflow.go.
use go_drive_etl.Common.{
  refl, none, some, true, false, [], ◌∷◌, Text, codes, arith, ◌≡◌, Bool, Option, if◌then◌else◌,
  Error, List,
}
use go_drive_etl.Workflow.{
  Options, Ops, Report, Stage, Run, verify, new_report, set_status, configuration_stage,
}

module _ {W : Type 0} where
  -- A run that was not asked to change anything is the same run, with the same effects, whatever
  -- the refresh and the export would do.
  pub verify_read_only :
      (allow_empty data_only : Bool) (ops : Ops W) (refresh export : W → Option Error × W)
      (r : Report) (w : W)
      → verify (record { mutate = false; allow_empty = allow_empty; data_only = data_only }) ops r w
        ≡ verify
            (record { mutate = false; allow_empty = allow_empty; data_only = data_only })
            (record ops { refresh = refresh; export = export })
            r
            w
  unfolding verify
  verify_read_only allow_empty data_only ops refresh export r w = refl

-- The report with which `verify` is called: the configuration has passed.
abbrev pub configured : Options → Report
configured o = set_status configuration_stage (codes "passed") (new_report o.mutate o.data_only)

abbrev pub options_of : Bool → Bool → Bool → Options
options_of mutate allow_empty data_only = record {
  mutate = mutate;
  allow_empty = allow_empty;
  data_only = data_only;
}

abbrev pub statuses : List Stage → List Text
statuses [] = []
statuses (s ∷ stages) = s.status ∷ statuses stages

-- The statuses of a run in which everything that was asked for has passed.
abbrev pub all_passed : Bool → Bool → List Text
all_passed mutate data_only =
    codes "passed"
    ∷ (if mutate then codes "passed" else codes "not_requested")
    ∷ codes "passed"
    ∷ codes "passed"
    ∷ (if mutate then codes "passed" else codes "not_requested")
    ∷ (if data_only then codes "not_requested" else codes "unverified")
    ∷ []

-- What holds of a run by its error.
abbrev pub Verdict : {W : Type 0} → Bool → Bool → Run W → Type 0
Verdict mutate data_only x =
    ((x.0 ≡ none)
      → ((x.1).status ≡ (if data_only then codes "success" else codes "partial"))
        × (statuses (x.1).stages ≡ all_passed mutate data_only))
    × ((e : Error) → x.0 ≡ some e → (x.1).status ≡ codes "failed")

module _ {W : Type 0} where
  verify-Verdict_plain :
      (allow_empty data_only : Bool) (ops : Ops W) (w : W)
      → Verdict false data_only (
          verify
            (options_of false allow_empty data_only)
            ops
            (configured (options_of false allow_empty data_only))
            w)
  unfolding verify new_report
  verify-Verdict_plain allow_empty true ops w = ground arith
  verify-Verdict_plain allow_empty false ops w = ground arith

  verify-Verdict_mutating :
      (allow_empty data_only : Bool) (ops : Ops W) (w : W)
      → Verdict true data_only (
          verify
            (options_of true allow_empty data_only)
            ops
            (configured (options_of true allow_empty data_only))
            w)
  unfolding verify new_report
  verify-Verdict_mutating allow_empty true ops w = ground arith
  verify-Verdict_mutating allow_empty false ops w = ground arith

  -- A run of the configured report that ends without an error reports `partial`, or `success` for a
  -- run over the data alone, and every stage that was asked for has passed, the others standing at
  -- `not_requested` or, the dashboard, at `unverified`. A run that ends with an error reports
  -- `failed`.
  pub verify-Verdict :
      (mutate allow_empty data_only : Bool) (ops : Ops W) (w : W)
      → Verdict mutate data_only (
          verify
            (options_of mutate allow_empty data_only)
            ops
            (configured (options_of mutate allow_empty data_only))
            w)
  verify-Verdict true = verify-Verdict_mutating
  verify-Verdict false = verify-Verdict_plain
