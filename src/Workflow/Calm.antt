-- ===== src/Workflow/Calm.antt =====
-- A run of cmd/verify_gold/main.go over services without faults.
use go_drive_etl.Common.{
  refl, none, some, true, false, ok, err, Text, codes, ◌≡◌, ap, ◌∙◌, Bool, Option, List,
  if◌then◌else◌, Error, Result, is_empty,
}
use go_drive_etl.Services.{DriveClient, Source}
use go_drive_etl.GoldReport.{export_reports}
use go_drive_etl.GoldVerify.{Ids, Checked, check_csv, check_drive, gold_matches}
use go_drive_etl.GoldVerify.Query.{comparison_sql}
use go_drive_etl.GoldVerify.Handover.{Stored, DriveApi, ApiLaws, SourceLaws, client, daily, latest}
use go_drive_etl.GoldVerify.Handover.Uploads.{IsTidy}
use go_drive_etl.Common.{ℕ}
use go_drive_etl.GoldVerify.Handover.Rounds.{two_rounds_pass}
use go_drive_etl.Workflow.{
  Counts, Report, verify, new_report, count_at, set_status, configuration_stage,
}
use go_drive_etl.Workflow.Stages.{options_of}
use go_drive_etl.Workflow.Success.{verify-passes}
use go_drive_etl.Workflow.Command.{
  finish, folder_required, Outside, Clients, Settings, Faults, Exit, Cell, run, with_query,
  error_exit, ops, refresh, compare, settings, read_counts, counts_of, csv_clients, open_source,
  open_drive, script_error,
}
use go_drive_etl.Workflow.Command

-- The services behind `run`: the clients that are constructed, a script that refreshes the marts
-- and leaves the folder as it is, and a query that gives `row` after it.
pub record CalmLaws {W : Type 0} (out : Outside W) (s : Settings) (sql : Text) (source : Source W)
    (drive : DriveClient W) (stored : W → List Stored) (refreshed_world : W → W)
    (row : List (Text × Cell)) : Type 0 where
  pub script_ok : (w : W) → out.run_script s w ≡ (none, refreshed_world w)
  pub stored-script : (w : W) → stored (refreshed_world w) ≡ stored w
  pub row_ok :
      (w : W)
      → out.first_row s.project s.location sql (refreshed_world w) ≡ (ok row, refreshed_world w)
  pub source_ok : (w : W) → out.new_source w ≡ (ok source, w)
  pub drive_ok : (w : W) → out.new_drive w ≡ (ok drive, w)

module _ {W : Type 0} (out : Outside W) (s : Settings) (sql : Text) (allow_empty : Bool)
    (source : Source W) (api : DriveApi W) (fuel : ℕ) (stored : W → List Stored)
    (refreshed_world : W → W) (row : List (Text × Cell))
    (calm : CalmLaws out s sql source (client api fuel) stored refreshed_world row) where
  abbrev drive : DriveClient W
  drive = client api fuel

  abbrev opened : W → Clients W
  opened w = record { src = some source; dest = some drive; world = w }

  abbrev closed : W → Clients W
  closed w = record { src = none; dest = none; world = w }

  csv_clients-opened :
      (w : W) → csv_clients out s sql allow_empty (opened w) ≡ (ok (source, drive), opened w)
  unfolding csv_clients open_source open_drive
  csv_clients-opened w = refl

  -- With the client for BigQuery alone.
  abbrev half_open : W → Clients W
  half_open w = record { src = some source; dest = none; world = w }

  open_source-closed :
      (w : W) → open_source out s sql allow_empty none (closed w) ≡ (ok source, half_open w)
  unfolding open_source
  open_source-closed w =
      ap
        (λ (x : Result (Source W) × W). elim x.0 as (λ _. Result (Source W) × Clients W) [
          | ok src ↦ (ok src, record { src = some src; dest = none; world = x.1 })
          | err e ↦ (err e, closed x.1)
        ])
        (calm.source_ok w)

  open_drive-half_open :
      (w : W) → open_drive out s sql allow_empty none (half_open w) ≡ (ok drive, opened w)
  unfolding open_drive
  open_drive-half_open w =
      ap
        (λ (x : Result (DriveClient W) × W). elim x.0 as (λ _. Result (DriveClient W) × Clients W) [
          | ok dest ↦ (ok dest, record { src = some source; dest = some dest; world = x.1 })
          | err e ↦ (err e, half_open x.1)
        ])
        (calm.drive_ok w)

  abbrev with_dest :
      Source W → Result (DriveClient W) × Clients W → Result (Source W × DriveClient W) × Clients W
  with_dest src x = elim x.0 as (λ _. Result (Source W × DriveClient W) × Clients W) [
    | err e ↦ (err e, x.1)
    | ok dest ↦ (ok (src, dest), x.1)
  ]

  abbrev with_src : Result (Source W) × Clients W → Result (Source W × DriveClient W) × Clients W
  with_src x = elim x.0 as (λ _. Result (Source W × DriveClient W) × Clients W) [
    | err e ↦ (err e, x.1)
    | ok src ↦ with_dest src (open_drive out s sql allow_empty (x.1).dest x.1)
  ]

  csv_clients-closed :
      (w : W) → csv_clients out s sql allow_empty (closed w) ≡ (ok (source, drive), opened w)
  unfolding csv_clients
  csv_clients-closed w =
      ap with_src (open_source-closed w) ∙ ap (with_dest source) (open_drive-half_open w)

  abbrev exported : Result (Source W × DriveClient W) × Clients W → Option Error × Clients W
  exported x = elim x.0 as (λ _. Option Error × Clients W) [
    | err e ↦ (some e, x.1)
    | ok y ↦
        let (result, w) = export_reports y.1 y.0 s.folder (x.1).world in
        (result, record x.1 { world = w })
  ]

  export-passes :
      (c : Clients W) (w w' : W)
      → csv_clients out s sql allow_empty c ≡ (ok (source, drive), opened w)
      → export_reports drive source s.folder w ≡ (none, w')
      → Command.export out s sql allow_empty c ≡ (none, opened w')
  unfolding Command.export
  export-passes c w w' e h = ap exported e ∙ ap (λ (x : Option Error × W). (x.0, opened x.1)) h

  check-passes :
      (previous : Option Ids) (w : W) (c : Checked)
      → check_drive out.read_csv source drive allow_empty previous s.folder w ≡ (c, w)
      → Command.check out s sql allow_empty previous (opened w) ≡ (c, opened w)
  unfolding Command.check csv_clients open_source open_drive
  check-passes previous w c h = ap (λ (x : Checked × W). (x.0, opened x.1)) h

  refresh-passes :
      (w : W) → refresh out s sql allow_empty (closed w) ≡ (none, closed (refreshed_world w))
  unfolding refresh
  refresh-passes w =
      ap (λ (x : Option (Error × Text) × W). (script_error x.0, closed x.1)) (calm.script_ok w)

  compare-passes :
      (w : W)
      → compare out s sql allow_empty (closed (refreshed_world w))
        ≡ (counts_of (ok row), closed (refreshed_world w))
  unfolding compare
  compare-passes w =
      ap (λ (x : Result (List (Text × Cell)) × W). (counts_of x.0, closed x.1)) (calm.row_ok w)

  -- The operations of `run` on such services, one after the other.
  ops-pass :
      (md5 : Text → Text) (fresh : W → Text) (csv : Text → Text) (data_only : Bool) (r : Report)
      (w : W) (counts : Counts)
      → ApiLaws api fuel md5 s.folder stored fresh
      → SourceLaws source csv
      → (check_csv out.read_csv daily (csv daily) (csv daily) allow_empty).1 ≡ none
      → (check_csv out.read_csv latest (csv latest) (csv latest) allow_empty).1 ≡ none
      → is_empty s.folder ≡ false
      → IsTidy (stored w)
      → counts_of (ok row) ≡ (counts, none)
      → gold_matches (count_at counts) allow_empty ≡ true
      → (verify (options_of true allow_empty data_only) (ops out s sql allow_empty) r (closed w)).0
        ≡ none
  ops-pass md5 fresh csv data_only r w counts laws tables accepted accepted' named tidy counted
        same =
      let start = refreshed_world w in
      let still : IsTidy (stored start) = rw (calm.stored-script w) tidy in
      let (w', c, w'', c', exported, checked, good, exported', checked', good', _) =
        two_rounds_pass source api fuel md5 s.folder stored fresh csv laws tables named out.read_csv
          allow_empty accepted accepted' start still in
      verify-passes allow_empty data_only (ops out s sql allow_empty) r (closed w) (closed start)
        (closed start) (opened w') (opened w'') counts c c' (refresh-passes w)
        (compare-passes w ∙ ap (λ (x : Counts × Option Error). (x, closed start)) counted) same
        (export-passes (closed start) start w' (csv_clients-closed start) exported)
        (check-passes none w' c checked) good
        (export-passes (opened w') w' w'' (csv_clients-opened w') exported')
        (check-passes (some c.ids) w'' c' checked') good'

abbrev pub no_faults : Faults
no_faults = record {
  invalid_env = false;
  no_directory = false;
  no_error_log = false;
  no_summary = false;
}

else_taken : {A : Type 0} (b : Bool) (x y : A) → b ≡ false → (if b then x else y) ≡ y
else_taken b x y h = rw h

-- A run of verify_gold that may change the cloud, with a valid configuration and over services
-- without faults: the clients can be constructed, that of Drive makes the calls of
-- internal/drive/client.go over an API that keeps its laws, the refresh leaves the folder as it is,
-- the folder holds at most one file of each name, the tables do not change, the check accepts
-- their CSV text, and the counts match. It exits with 0 where it was to look at the data alone, and
-- with 2 otherwise.
pub run_delivers :
    {W : Type 0} (out : Outside W) (getenv : Text → Text) (allow_empty data_only : Bool)
    (sql : Text) (source : Source W) (api : DriveApi W) (fuel : ℕ) (md5 : Text → Text)
    (stored : W → List Stored) (fresh : W → Text) (csv : Text → Text) (refreshed_world : W → W)
    (row : List (Text × Cell)) (counts : Counts) (w : W)
    → CalmLaws out (settings getenv) sql source (client api fuel) stored refreshed_world row
    → ApiLaws api fuel md5 (settings getenv).folder stored fresh
    → SourceLaws source csv
    → comparison_sql (settings getenv).project (settings getenv).silver (settings getenv).gold
      ≡ ok sql
    → is_empty (settings getenv).folder ≡ false
    → IsTidy (stored w)
    → (check_csv out.read_csv daily (csv daily) (csv daily) allow_empty).1 ≡ none
    → (check_csv out.read_csv latest (csv latest) (csv latest) allow_empty).1 ≡ none
    → counts_of (ok row) ≡ (counts, none)
    → gold_matches (count_at counts) allow_empty ≡ true
    → ((run out no_faults
        (options_of true allow_empty data_only)
        getenv
        (record { src = none; dest = none; world = w })).0
      ).code
      ≡ (if data_only then 0 else 2)
unfolding run with_query
run_delivers out getenv allow_empty data_only sql source api fuel md5 stored fresh csv
      refreshed_world row counts w calm laws tables valid named tidy accepted accepted' counted
      same =
    let s = settings getenv in
    let o = options_of true allow_empty data_only in
    let r = new_report true data_only in
    let c : Clients _ = record { src = none; dest = none; world = w } in
    let passed =
      ops-pass out s sql allow_empty source api fuel stored refreshed_world row calm md5 fresh csv
        data_only (set_status configuration_stage (codes "passed") r) w counts laws tables accepted
        accepted' named tidy counted same in
    let report : Report =
      (verify o (ops out s sql allow_empty) (set_status configuration_stage (codes "passed") r)
        c).1 in
    ap (λ q. ((with_query out no_faults o s q r c).0).code) valid
    ∙ ap (λ (x : Exit × Clients _). (x.0).code) (else_taken (is_empty s.folder) _ _ named)
    ∙ unfold finish error_exit in ap (λ e. (error_exit no_faults data_only e report).code) passed
