-- ===== src/Workflow.antt =====
-- cmd/verify_gold/workflow.go: the stages of a verification run, and the order in which they are
-- carried out. The operations act on a state `W` of the outside world.
pub mod Stages
pub mod Command
pub mod Exit
pub mod Dashboard
pub mod Success
pub mod Calm
mod Tests
use go_drive_etl.Common.{
  ℕ, zero, suc, none, some, true, false, [], ◌∷◌, ok, err, Text, codes, Bool, Error, List, Option,
  if◌then◌else◌, contains_text, error_text, message, text_eq, ◌+◌,
}
use go_drive_etl.GoldVerify.{CsvResult, Ids, Checked, gold_matches}

-- A map of counts: a list of entries.
abbrev pub Counts : Type 0
Counts = List (Text × ℕ)

abbrev pub count_at : Counts → Text → ℕ
count_at [] key = 0
count_at ((k, n) ∷ counts) key = if text_eq k key then n else count_at counts key

pub record Stage : Type 0 where
  pub error_code : Text
  pub name : Text
  pub status : Text
  pub counts : Counts
  pub csv : List CsvResult

-- The fields of `report` that the workflow uses.
pub record Report : Type 0 where
  pub status : Text
  pub stages : List Stage

abbrev pub configuration_stage : ℕ
configuration_stage = 0

abbrev pub refresh_stage : ℕ
refresh_stage = 1

abbrev pub comparison_stage : ℕ
comparison_stage = 2

abbrev pub first_csv_stage : ℕ
first_csv_stage = 3

abbrev pub second_csv_stage : ℕ
second_csv_stage = 4

abbrev pub dashboard_stage : ℕ
dashboard_stage = 5

-- `r.Stages[index]`, changed. The indices are the constants above.
abbrev pub change_stage : ℕ → (Stage → Stage) → List Stage → List Stage
change_stage i f [] = []
change_stage zero f (s ∷ stages) = f s ∷ stages
change_stage (suc i) f (s ∷ stages) = s ∷ change_stage i f stages

abbrev pub set_status : ℕ → Text → Report → Report
set_status i status r = record r {
  stages = change_stage i (λ s. record s { status = status }) r.stages;
}

abbrev pub new_stage : Text → Text → Stage
new_stage name status = record {
  error_code = [];
  name = name;
  status = status;
  counts = [];
  csv = [];
}

pub record Options : Type 0 where
  pub mutate : Bool
  pub allow_empty : Bool
  pub data_only : Bool

pub record Ops (W : Type 0) : Type 0 where
  pub refresh : W → Option Error × W
  pub compare : W → (Counts × Option Error) × W
  pub export : W → Option Error × W
  pub check : Option Ids → W → Checked × W

unfoldable pub new_report : Bool → Bool → Report
new_report mutate data_only =
    let r : Report = record {
      status = codes "failed";
      stages =
          new_stage (codes "configuration") (codes "not_run")
          ∷ new_stage (codes "refresh") (codes "not_run")
          ∷ new_stage (codes "Gold comparison") (codes "not_run")
          ∷ new_stage (codes "CSV round 1") (codes "not_run")
          ∷ new_stage (codes "CSV round 2") (codes "not_run")
          ∷ new_stage (codes "dashboard") (codes "unverified")
          ∷ [];
    } in
    let r' =
      if mutate
      then r
      else set_status second_csv_stage (codes "not_requested")
          (set_status refresh_stage (codes "not_requested") r) in
    if data_only then set_status dashboard_stage (codes "not_requested") r' else r'

-- The loop over the codes that an error is searched for.
unfoldable pub error_code_of : Text → List Text → Text
error_code_of text [] = codes "api_or_configuration_error"
error_code_of text (code ∷ known) =
    let rest = error_code_of text known in if contains_text text code then code else rest

abbrev pub known_codes : List Text
known_codes =
    codes "invalid_grant"
    ∷ codes "invalid_client"
    ∷ codes "insufficientPermissions"
    ∷ codes "storageQuotaExceeded"
    ∷ []

-- `r.fail(index, err)`, which also returns the error.
unfoldable pub fail_stage : ℕ → Error → Report → Report
fail_stage i e r = record r {
  stages =
      change_stage i
        (λ s. record s {
          status = codes "failed";
          error_code = error_code_of (error_text e) known_codes;
        })
        r.stages;
}

-- What a run leaves: the error, the report and the world.
abbrev pub Run : Type 0 → Type 0
Run W = Option Error × Report × W

module _ {W : Type 0} (options : Options) (ops : Ops W) where
  -- The end of `verify`.
  unfoldable pub finish : Report → W → Run W
  finish r w = (
    none,
    record r { status = if options.data_only then codes "success" else codes "partial" },
    w,
  )

  -- `ops.check`, with what the round does about its result.
  unfoldable pub check_round : ℕ → Option Ids → Report → W → (Option Error × Ids) × Report × W
  unfolding fail_stage
  check_round index previous r w =
      let (c, w') = ops.check previous w in
      let r' = record r {
        stages = change_stage index (λ s. record s { csv = c.results }) r.stages;
      } in
      elim c.error [
        | some e ↦ ((some e, c.ids), fail_stage index e r', w')
        | none ↦ ((none, c.ids), set_status index (codes "passed") r', w')
      ]

  -- One round of the loop: the export, if it is asked for, and the check.
  unfoldable pub round : ℕ → Option Ids → Report → W → (Option Error × Ids) × Report × W
  unfolding check_round
  round index previous r w =
      if options.mutate
      then (let (result, w') = ops.export w in
          elim result [
            | some e ↦ ((some e, []), fail_stage index e r, w')
            | none ↦ check_round index previous r w'
          ])
      else check_round index previous r w

  -- The rounds that are left, from stage `index` on.
  unfoldable pub rounds : ℕ → ℕ → Option Ids → Report → W → Run W
  unfolding round finish
  rounds zero index previous r w = finish r w
  rounds (suc left) index previous r w =
      let ((error, ids), r', w') = round index previous r w in
      elim error [ some e ↦ (some e, r', w') | none ↦ rounds left (index + 1) (some ids) r' w' ]

  abbrev pub differs : Error
  differs = message (codes "Gold differs from Silver or input is unexpectedly empty")

  -- From `ops.compare` on.
  unfoldable pub compare_and_rounds : Report → W → Run W
  unfolding rounds fail_stage
  compare_and_rounds r w =
      let ((counts, error), w') = ops.compare w in
      let r' = record r {
        stages = change_stage comparison_stage (λ s. record s { counts = counts }) r.stages;
      } in
      elim error [
        | some e ↦ (some e, fail_stage comparison_stage e r', w')
        | none ↦
            if gold_matches (count_at counts) options.allow_empty
            then rounds (if options.mutate then 2 else 1) first_csv_stage none
                (set_status comparison_stage (codes "passed") r') w'
            else (some differs, fail_stage comparison_stage differs r', w')
      ]

  unfoldable pub verify : Report → W → Run W
  unfolding compare_and_rounds fail_stage
  verify r w =
      if options.mutate
      then (let (result, w') = ops.refresh w in
          elim result [
            | some e ↦ (some e, fail_stage refresh_stage e r, w')
            | none ↦ compare_and_rounds (set_status refresh_stage (codes "passed") r) w'
          ])
      else compare_and_rounds r w
