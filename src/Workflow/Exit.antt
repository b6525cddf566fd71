-- ===== src/Workflow/Exit.antt =====
-- How cmd/verify_gold/main.go ends, and when it constructs the clients of the CSV checks.
use go_drive_etl.Common.{
  refl, none, some, true, false, ok, err, Text, codes, arith, ◌≡◌, Bool, Option, if◌then◌else◌,
  Error, Result, Bool-cases, inl, inr, ◌⊎◌, is_empty,
}
use go_drive_etl.GoldVerify.{gold_matches}
use go_drive_etl.Workflow.{
  Counts, Options, Report, verify, new_report, fail_stage, compare_and_rounds, count_at,
  configuration_stage,
}
use go_drive_etl.Workflow.Stages.{statuses, all_passed, options_of, verify-Verdict}
use go_drive_etl.Workflow.Command.{
  Outside, Clients, Settings, Faults, Exit, run, with_query, finish, error_exit, ops, refresh,
  compare, folder_required, settings,
}

-- Exit code 0 for a run over the data alone of which everything passed, 2 for one that leaves the
-- dashboard open, 1 for all else, where a summary, if one is written, says `failed`.
pub data IsExit (mutate data_only : Bool) (x : Exit) : Type 0 where
  success :
      data_only ≡ true
      → (r : Report) → x ≡ record { code = 0; private_log = none; summary = some r }
      → r.status ≡ codes "success"
      → statuses r.stages ≡ all_passed mutate true
      → IsExit mutate data_only x
  partial :
      data_only ≡ false
      → (r : Report) → x ≡ record { code = 2; private_log = none; summary = some r }
      → r.status ≡ codes "partial"
      → statuses r.stages ≡ all_passed mutate false
      → IsExit mutate data_only x
  failure :
      x.code ≡ 1
      → ((x.summary ≡ none) ⊎ ((r : Report) × (x.summary ≡ some r) × (r.status ≡ codes "failed")))
      → IsExit mutate data_only x

still_failed :
    (m d : Bool) (e : Error)
    → (fail_stage configuration_stage e (new_report m d)).status ≡ codes "failed"
unfolding fail_stage new_report
still_failed m d e = ground arith

finish-IsExit :
    (mutate data_only : Bool) (faults : Faults) (error : Option Error) (r : Report)
    → (error ≡ none
        → (r.status ≡ (if data_only then codes "success" else codes "partial"))
          × (statuses r.stages ≡ all_passed mutate data_only))
    → ((e : Error) → error ≡ some e → r.status ≡ codes "failed")
    → IsExit mutate data_only (finish faults data_only error r)
unfolding finish
finish-IsExit mutate data_only faults error r good bad = elim (Bool-cases faults.no_summary) [
  | inl lost ↦ rw lost (failure refl (inl refl))
  | inr kept ↦ rw kept (by_error error data_only good bad)
]
  where
    by_error :
        (error : Option Error) (data_only : Bool)
        → (error ≡ none
            → (r.status ≡ (if data_only then codes "success" else codes "partial"))
              × (statuses r.stages ≡ all_passed mutate data_only))
        → ((e : Error) → error ≡ some e → r.status ≡ codes "failed")
        → IsExit mutate data_only (error_exit faults data_only error r)
    by_error none true good bad = success refl r refl (good refl).0 (good refl).1
    by_error none false good bad = partial refl r refl (good refl).0 (good refl).1
    by_error (some e) data_only good bad = failure refl (inr (r, refl, bad e refl))

module _ {W : Type 0} (out : Outside W) (faults : Faults)
    (mutate allow_empty data_only : Bool) where
  abbrev options : Options
  options = options_of mutate allow_empty data_only

  configuration-IsExit :
      (e : Error)
      → IsExit mutate data_only (
          finish faults data_only
            (some e)
            (fail_stage configuration_stage e (new_report mutate data_only)))
  configuration-IsExit e =
      finish-IsExit mutate data_only faults (some e) _ (λ h. cc)
        (λ d h. still_failed mutate data_only e)

  with_query-IsExit :
      (s : Settings) (sql : Result Text) (c : Clients W)
      → IsExit mutate data_only
          (with_query out faults options s sql (new_report mutate data_only) c).0
  unfolding with_query
  with_query-IsExit s (err e) c = configuration-IsExit e
  with_query-IsExit s (ok sql) c = elim (Bool-cases (is_empty s.folder)) [
    | inl e ↦ rw e (configuration-IsExit folder_required)
    | inr e ↦
        let v = verify-Verdict mutate allow_empty data_only (ops out s sql allow_empty) c in
        rw e (finish-IsExit mutate data_only faults _ _ v.0 v.1)
  ]

  -- Whatever the outside does, the process of verify_gold exits with 0, 1 or 2. It exits with 0
  -- only after a run over the data alone in which every stage that was asked for passed, with 2
  -- only after one that leaves the dashboard to be reviewed, of which the others passed; in both
  -- cases the summary that says so is written, and no private log. With 1, a summary that is
  -- written says `failed`.
  pub run-IsExit :
      (getenv : Text → Text) (c : Clients W)
      → IsExit mutate data_only (run out faults options getenv c).0
  unfolding run
  run-IsExit getenv c = elim (Bool-cases faults.invalid_env) [
    | inl e ↦ rw e (failure refl (inl refl))
    | inr e ↦ elim (Bool-cases faults.no_directory) [
      | inl f ↦ rw (e, f) (failure refl (inl refl))
      | inr f ↦ rw (e, f) (with_query-IsExit (settings getenv) _ c)
    ]
  ]

-- What the comparison says.
abbrev pub passes : Counts × Option Error → Bool → Bool
passes (counts, some e) allow_empty = false
passes (counts, none) allow_empty = gold_matches (count_at counts) allow_empty

module _ {W : Type 0} (out : Outside W) (s : Settings) (sql : Text) (o : Options) where
  -- The state at the comparison.
  abbrev pub at_comparison : Clients W → Clients W
  at_comparison c = if o.mutate then (refresh out s sql o.allow_empty c).1 else c

  -- Where there is no client yet, and the comparison fails or finds a difference, or the refresh
  -- before it is asked for and fails, neither the BigQuery client of the CSV checks nor the Drive
  -- client is constructed by the verification.
  pub verify_lazy :
      (r : Report) (c : Clients W)
      → c.src ≡ none
      → c.dest ≡ none
      → ((passes (compare out s sql o.allow_empty (at_comparison c)).0 o.allow_empty ≡ false)
          ⊎ ((o.mutate ≡ true) × (e : Error) × ((refresh out s sql o.allow_empty c).0 ≡ some e)))
      → (((verify o (ops out s sql o.allow_empty) r c).2).src ≡ none)
        × (((verify o (ops out s sql o.allow_empty) r c).2).dest ≡ none)
  unfolding verify compare_and_rounds refresh compare
  verify_lazy r c a b (inl h) = ground arith
  verify_lazy r c a b (inr (m, e, h)) = ground arith
