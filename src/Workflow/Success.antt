-- ===== src/Workflow/Success.antt =====
-- A run of cmd/verify_gold/workflow.go whose operations go well.

use go_drive_etl.Common.{
  none, some, true, [], codes, ◌≡◌, ap, ◌∙◌, Bool, Option, Error, ◌+◌, ℕ, suc, if◌then◌else◌,
}
use go_drive_etl.GoldVerify.{Ids, Checked, gold_matches}
use go_drive_etl.Workflow.{
  change_stage, set_status, fail_stage, Options, Ops, Report, Run, rounds, round, check_round,
  Counts, refresh_stage, verify, compare_and_rounds, comparison_stage, count_at, first_csv_stage,
  differs,
}
use go_drive_etl.Workflow.Stages.{options_of}

module _ {W : Type 0} (allow_empty data_only : Bool) (ops : Ops W) where
  abbrev options : Options
  options = options_of true allow_empty data_only

  abbrev checked_round : ℕ → Report → Checked → W → Option Error → (Option Error × Ids) × Report × W
  checked_round index r c w error =
      let r' = record r {
        stages = change_stage index (λ s. record s { csv = c.results }) r.stages;
      } in
      elim error as (λ _. (Option Error × Ids) × Report × W) [
        | some e ↦ ((some e, c.ids), fail_stage index e r', w)
        | none ↦ ((none, c.ids), set_status index (codes "passed") r', w)
      ]

  abbrev exported_round :
      ℕ → Option Ids → Report → Option Error → W → (Option Error × Ids) × Report × W
  exported_round index previous r result w =
      elim result as (λ _. (Option Error × Ids) × Report × W) [
        | some e ↦ ((some e, []), fail_stage index e r, w)
        | none ↦ check_round options ops index previous r w
      ]

  abbrev next_rounds : ℕ → ℕ → (Option Error × Ids) × Report × W → Run W
  next_rounds left index x = elim (x.0).0 as (λ _. Run W) [
    | some e ↦ (some e, x.1, x.2)
    | none ↦ rounds options ops left (index + 1) (some (x.0).1) x.1 x.2
  ]

  -- What `ops.check` gives is read by its parts.
  check_round-passes :
      (index : ℕ) (previous : Option Ids) (r : Report) (w : W) (c : Checked)
      → ops.check previous w ≡ (c, w)
      → c.error ≡ none
      → (r' : Report) × (check_round options ops index previous r w ≡ ((none, c.ids), r', w))
  unfolding check_round
  check_round-passes index previous r w c checked good = (
    _,
    ap (λ x. checked_round index r x.0 x.1 (x.0).error) checked
        ∙ ap (checked_round index r c w) good,
  )

  round-passes :
      (index : ℕ) (previous : Option Ids) (r : Report) (w w' : W) (c : Checked)
      → ops.export w ≡ (none, w')
      → ops.check previous w' ≡ (c, w')
      → c.error ≡ none
      → (r' : Report) × (round options ops index previous r w ≡ ((none, c.ids), r', w'))
  unfolding round
  round-passes index previous r w w' c exported checked good =
      let (r', passed) = check_round-passes index previous r w' c checked good in
      (r', ap (λ x. exported_round index previous r x.0 x.1) exported ∙ passed)

  rounds-step :
      (left index : ℕ) (previous : Option Ids) (r r' : Report) (w w' : W) (ids : Ids)
      → round options ops index previous r w ≡ ((none, ids), r', w')
      → rounds options ops (suc left) index previous r w
        ≡ rounds options ops left (index + 1) (some ids) r' w'
  unfolding rounds
  rounds-step left index previous r r' w w' ids e = ap (next_rounds left index) e

  abbrev compared : Report → (Counts × Option Error) × W → Run W
  compared r x =
      let r' = record r {
        stages = change_stage comparison_stage (λ s. record s { counts = (x.0).0 }) r.stages;
      } in
      elim (x.0).1 as (λ _. Run W) [
        | some e ↦ (some e, fail_stage comparison_stage e r', x.1)
        | none ↦
            if gold_matches (count_at (x.0).0) allow_empty
            then rounds options ops 2 first_csv_stage none
                (set_status comparison_stage (codes "passed") r') x.1
            else (
              some (differs options ops),
              fail_stage comparison_stage (differs options ops) r',
              x.1,
            )
      ]

  abbrev refreshed : Report → Option Error × W → Run W
  refreshed r x = elim x.0 as (λ _. Run W) [
    | some e ↦ (some e, fail_stage refresh_stage e r, x.1)
    | none ↦ compare_and_rounds options ops (set_status refresh_stage (codes "passed") r) x.1
  ]

  -- A workflow whose operations go well ends without an error.
  pub verify-passes :
      (r : Report) (w w1 w2 w3 w4 : W) (counts : Counts) (c c' : Checked)
      → ops.refresh w ≡ (none, w1)
      → ops.compare w1 ≡ ((counts, none), w2)
      → gold_matches (count_at counts) allow_empty ≡ true
      → ops.export w2 ≡ (none, w3)
      → ops.check none w3 ≡ (c, w3)
      → c.error ≡ none
      → ops.export w3 ≡ (none, w4)
      → ops.check (some c.ids) w4 ≡ (c', w4)
      → c'.error ≡ none
      → (verify options ops r w).0 ≡ none
  unfolding verify compare_and_rounds
  verify-passes r w w1 w2 w3 w4 counts c c' refreshed_ok compared_ok same exported checked good
        exported' checked' good' =
      let r1 : Report = set_status refresh_stage (codes "passed") r in
      let read : Report = record r1 {
        stages = change_stage comparison_stage (λ s. record s { counts = counts }) r1.stages;
      } in
      let r2 : Report = set_status comparison_stage (codes "passed") read in
      let (r3, one) = round-passes first_csv_stage none r2 w2 w3 c exported checked good in
      let (r4, two) =
        round-passes (first_csv_stage + 1) (some c.ids) r3 w3 w4 c' exported' checked' good' in
      ap (λ x. (refreshed r x).0) refreshed_ok
      ∙ ap (λ x. (compared r1 x).0) compared_ok
      ∙ ap
          (λ b.
            (if b then rounds options ops 2 first_csv_stage none r2 w2 else (
              some (differs options ops),
              fail_stage comparison_stage (differs options ops) read,
              w2,
            )).0)
          same
      ∙ ap (λ x. x.0)
          (rounds-step 1 first_csv_stage none r2 r3 w2 w3 c.ids one
            ∙ rounds-step 0 (first_csv_stage + 1) (some c.ids) r3 r4 w3 w4 c'.ids two)
