-- ===== src/Workflow/Tests.antt =====
-- The theorems of the workflow at a run in which every operation goes well.
use go_drive_etl.Common.{
  ℕ, none, true, false, [], ◌∷◌, codes, ◌≡◌, ◌+◌, Text, ok, err, if◌then◌else◌, refl, canceled,
  text_eq, List, arith, length, inl,
}
use go_drive_etl.Workflow.{Ops, Counts, verify, new_report, gold_matches}
use go_drive_etl.GoldVerify.{gold_matches}
use go_drive_etl.Workflow.Command.{
  Outside, Clients, int64, run, settings, ops, compare, refresh, counts_of,
}
use go_drive_etl.GoldVerify.Query.{
  comparison_sql, validate, matches_project, matches_name, fill, quoted_path, template,
  template_end,
}
use go_drive_etl.GoldVerify.Query.Quoting.{comparison_sql-quoted}
use go_drive_etl.GoldVerify.Handover.Positions.{Entry, stored_from, api, no_sum, api-ApiLaws}
use go_drive_etl.GoldVerify.Handover.Tables.{
  csv, source, read_csv, source-SourceLaws, daily_accepted, latest_accepted,
}
use go_drive_etl.GoldVerify.Handover.{count_stored, client}
use go_drive_etl.GoldVerify.Handover.Uploads.{IsTidy}
use go_drive_etl.Workflow.Dashboard.{find_dashboard}
use go_drive_etl.Workflow.Calm.{CalmLaws, no_faults, run_delivers}
use go_drive_etl.Workflow.Exit.{IsExit, run-IsExit, verify_lazy, passes, at_comparison}
use go_drive_etl.Workflow.Stages.{Verdict, options_of, configured, verify-Verdict}

abbrev one_chunk : Counts
one_chunk =
    (codes "silver_chunks", 1) ∷ (codes "expected_daily", 1) ∷ (codes "actual_daily", 1) ∷ []

-- The state counts the writes to the cloud.
abbrev fine : Ops ℕ
fine = record {
  refresh = λ w. (none, w + 1);
  compare = λ w. ((one_chunk, none), w);
  export = λ w. (none, w + 1);
  check = λ previous w. (record { results = []; ids = []; error = none }, w);
}

verify-Verdict_example :
    Verdict true false
      (verify (options_of true false false) fine (configured (options_of true false false)) 0)
verify-Verdict_example = verify-Verdict true false false fine 0

-- A world in which BigQuery gives no connection for the tables, and the counts differ.
abbrev outside : Outside ℕ
outside = record {
  run_script = λ s w. (none, w + 1);
  first_row = λ project location sql w. (ok ((codes "daily_missing", int64 1) ∷ []), w);
  new_source = λ w. (err canceled, w);
  new_drive = λ w. (err canceled, w);
  read_csv = λ s. err canceled;
}

abbrev getenv : Text → Text
getenv key =
    if text_eq key (codes "BIGQUERY_PROJECT_ID")
    then codes "etl-project"
    else if text_eq key (codes "DRIVE_EXPORT_FOLDER_ID")
    then codes "out"
    else []

abbrev no_clients : Clients ℕ
no_clients = record { src = none; dest = none; world = 0 }

run-IsExit_example :
    IsExit true false (run outside no_faults (options_of true false false) getenv no_clients).0
run-IsExit_example = run-IsExit outside no_faults true false false getenv no_clients

different :
    passes
      (compare outside
        (settings getenv)
        []
        false
        (at_comparison outside (settings getenv) [] (options_of true false false) no_clients)).0
      false
    ≡ false
unfolding compare gold_matches refresh counts_of
different = refl

verify_lazy_example :
    (((verify
          (options_of true false false)
          (ops outside (settings getenv) [] false)
          (new_report true false)
          no_clients).2
        ).src
      ≡ none)
    × (((verify
            (options_of true false false)
            (ops outside (settings getenv) [] false)
            (new_report true false)
            no_clients).2
          ).dest
        ≡ none)
verify_lazy_example =
    verify_lazy outside (settings getenv) [] (options_of true false false) (new_report true false)
      no_clients refl refl (inl different)

-- A world in which all goes well; its state is a folder.
abbrev calm_outside : Outside (List Entry)
calm_outside = record {
  run_script = λ s w. (none, w);
  first_row = λ project location sql w. (ok ((codes "silver_chunks", int64 1) ∷ []), w);
  new_source = λ w. (ok source, w);
  new_drive = λ w. (ok (client api 1), w);
  read_csv = read_csv;
}

abbrev query : Text
query =
    fill (quoted_path (codes "etl-project") (codes "etl_silver") (codes "etl_gold")) template
      template_end

calm :
    CalmLaws calm_outside
      (settings getenv)
      query
      source
      (client api 1)
      (λ w. stored_from 0 w)
      (λ w. w)
      ((codes "silver_chunks", int64 1) ∷ [])
calm = record {
  script_ok = λ w. refl;
  stored-script = λ w. refl;
  row_ok = λ w. refl;
  source_ok = λ w. refl;
  drive_ok = λ w. refl;
}

queried :
    comparison_sql (settings getenv).project (settings getenv).silver (settings getenv).gold
    ≡ ok query
unfolding settings validate matches_project matches_name
queried = comparison_sql-quoted (codes "etl-project") (codes "etl_silver") (codes "etl_gold")

nothing-IsTidy : IsTidy (stored_from 0 [])
unfolding count_stored
nothing-IsTidy = (omega arith, omega arith)

run_delivers_example :
    ((run calm_outside no_faults
      (options_of true false false)
      getenv
      (record { src = none; dest = none; world = [] })).0
    ).code
    ≡ 2
unfolding settings counts_of gold_matches
run_delivers_example =
    run_delivers calm_outside getenv false false query source api 1 no_sum (λ w. stored_from 0 w)
      (λ w. length w ∷ []) csv (λ w. w) ((codes "silver_chunks", int64 1) ∷ [])
      ((codes "silver_chunks", 1) ∷ []) [] calm api-ApiLaws source-SourceLaws queried refl
      nothing-IsTidy daily_accepted latest_accepted refl refl

found_in_text :
    find_dashboard
      (codes "see https://datastudio.google.com/ or https://datastudio.google.com/x now")
    ≡ codes "https://datastudio.google.com/x"
unfolding find_dashboard
found_in_text = refl
