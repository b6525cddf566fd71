-- ===== src/Workflow/Command.antt =====
-- `run` of cmd/verify_gold/main.go: the configuration, the operations that it gives to the
-- workflow, the files that it leaves and its exit code. What it calls acts on a state `W` of the
-- outside world.
use go_drive_etl.Common.{
  ℕ, none, some, [], ◌∷◌, ok, err, Text, codes, Bool, Error, List, Option, Result, if◌then◌else◌,
  message, error_text, is_empty, ◌++◌,
}
use go_drive_etl.Services.{DriveClient, Source}
use go_drive_etl.GoldReport
use go_drive_etl.GoldVerify.{Ids, Checked, check_drive}
use go_drive_etl.GoldVerify.Query.{comparison_sql}
use go_drive_etl.Workflow.{
  Counts, Options, Ops, Report, verify, new_report, fail_stage, set_status, configuration_stage,
}

-- `value(key, fallback)`.
unfoldable pub value : (Text → Text) → Text → Text → Text
value getenv key fallback = if is_empty (getenv key) then fallback else getenv key

-- What `run` reads from the environment.
pub record Settings : Type 0 where
  pub project : Text
  pub silver : Text
  pub gold : Text
  pub location : Text
  pub folder : Text

unfoldable pub settings : (Text → Text) → Settings
unfolding value
settings getenv = record {
  project = getenv (codes "BIGQUERY_PROJECT_ID");
  silver = value getenv (codes "BQ_SILVER_DATASET_ID") (codes "etl_silver");
  gold = value getenv (codes "BIGQUERY_GOLD_DATASET_ID") (codes "etl_gold");
  location = value getenv (codes "BQ_LOCATION") (codes "asia-northeast1");
  folder = getenv (codes "DRIVE_EXPORT_FOLDER_ID");
}

-- A cell of the row that the comparison returns: an int64, which is a count, or another value.
pub data Cell : Type 0 where
  int64 : ℕ → Cell
  other : Cell

-- What `run` uses of the outside: the script that refreshes the marts, whose error comes with its
-- output; the first row of the query's result; and what constructs the clients.
pub record Outside (W : Type 0) : Type 0 where
  pub run_script : Settings → W → Option (Error × Text) × W
  pub first_row : Text → Text → Text → W → Result (List (Text × Cell)) × W
  pub new_source : W → Result (Source W) × W
  pub new_drive : W → Result (DriveClient W) × W
  pub read_csv : Text → Result (List (List Text))

-- The variables `src` and `dest`, and the world.
pub record Clients (W : Type 0) : Type 0 where
  pub src : Option (Source W)
  pub dest : Option (DriveClient W)
  pub world : W

-- `fmt.Errorf("%w: %s", err, output)`, of which the code reads the text alone.
unfoldable pub script_error : Option (Error × Text) → Option Error
script_error none = none
script_error (some (e, output)) = some (message (error_text e ++ (codes ": " ++ output)))

abbrev pub unexpected_count : Error
unexpected_count = message (codes "unexpected count type")

-- The loop over the cells of the row.
unfoldable pub read_counts : List (Text × Cell) → Counts → Counts × Option Error
read_counts [] counts = (counts, none)
read_counts ((key, int64 n) ∷ row) counts = read_counts row ((key, n) ∷ counts)
read_counts ((key, other) ∷ row) counts = ([], some unexpected_count)

unfoldable pub counts_of : Result (List (Text × Cell)) → Counts × Option Error
unfolding read_counts
counts_of (err e) = ([], some e)
counts_of (ok row) = read_counts row []

module _ {W : Type 0} (out : Outside W) (s : Settings) (sql : Text) (allow_empty : Bool) where
  -- `if src == nil { … }` and `if dest == nil { … }`, by what the variable holds.
  unfoldable pub open_source : Option (Source W) → Clients W → Result (Source W) × Clients W
  open_source (some src) c = (ok src, c)
  open_source none c =
      let (r, w) = out.new_source c.world in
      elim r [
        | ok src ↦ (ok src, record c { src = some src; world = w })
        | err e ↦ (err e, record c { world = w })
      ]

  unfoldable pub open_drive :
      Option (DriveClient W) → Clients W → Result (DriveClient W) × Clients W
  open_drive (some dest) c = (ok dest, c)
  open_drive none c =
      let (r, w) = out.new_drive c.world in
      elim r [
        | ok dest ↦ (ok dest, record c { dest = some dest; world = w })
        | err e ↦ (err e, record c { world = w })
      ]

  -- `csvClients`, with the clients that it leaves.
  unfoldable pub csv_clients : Clients W → Result (Source W × DriveClient W) × Clients W
  unfolding open_source open_drive
  csv_clients c =
      let (r, c') = open_source c.src c in
      elim r [
        | err e ↦ (err e, c')
        | ok src ↦
            let (q, c'') = open_drive c'.dest c' in
            elim q [ err e ↦ (err e, c'') | ok dest ↦ (ok (src, dest), c'') ]
      ]

  unfoldable pub refresh : Clients W → Option Error × Clients W
  unfolding script_error
  refresh c = let (r, w) = out.run_script s c.world in (script_error r, record c { world = w })

  unfoldable pub compare : Clients W → (Counts × Option Error) × Clients W
  unfolding counts_of
  compare c =
      let (r, w) = out.first_row s.project s.location sql c.world in
      (counts_of r, record c { world = w })

  unfoldable pub export : Clients W → Option Error × Clients W
  unfolding csv_clients
  export c =
      let (r, c') = csv_clients c in
      elim r [
        | err e ↦ (some e, c')
        | ok (src, dest) ↦
            let (result, w) = GoldReport.export_reports dest src s.folder c'.world in
            (result, record c' { world = w })
      ]

  unfoldable pub check : Option Ids → Clients W → Checked × Clients W
  unfolding csv_clients
  check previous c =
      let (r, c') = csv_clients c in
      elim r [
        | err e ↦ (record { results = []; ids = []; error = some e }, c')
        | ok (src, dest) ↦
            let (result, w) =
              check_drive out.read_csv src dest allow_empty previous s.folder c'.world in
            (result, record c' { world = w })
      ]

  abbrev pub ops : Ops (Clients W)
  ops = record { refresh = refresh; compare = compare; export = export; check = check }

-- What `run` leaves: the exit code, the text of `error.txt`, and the report in `summary.json`.
pub record Exit : Type 0 where
  pub code : ℕ
  pub private_log : Option Text
  pub summary : Option Report

-- The files that cannot be written, and what keeps `run` from starting.
pub record Faults : Type 0 where
  pub invalid_env : Bool
  pub no_directory : Bool
  pub no_error_log : Bool
  pub no_summary : Bool

abbrev pub no_report : Exit
no_report = record { code = 1; private_log = none; summary = none }

-- The code and the private log, by the error.
unfoldable pub error_exit : Faults → Bool → Option Error → Report → Exit
error_exit faults data_only none r = record {
  code = if data_only then 0 else 2;
  private_log = none;
  summary = some r;
}
error_exit faults data_only (some e) r = record {
  code = 1;
  private_log = if faults.no_error_log then none else some (error_text e);
  summary = some r;
}

-- The closure `finish`.
unfoldable pub finish : Faults → Bool → Option Error → Report → Exit
unfolding error_exit
finish faults data_only error r =
    let exit = error_exit faults data_only error r in
    if faults.no_summary then record exit { code = 1; summary = none } else exit

abbrev pub folder_required : Error
folder_required = message (codes "DRIVE_EXPORT_FOLDER_ID required")

module _ {W : Type 0} (out : Outside W) (faults : Faults) (o : Options) where
  -- From the query on.
  unfoldable pub with_query : Settings → Result Text → Report → Clients W → Exit × Clients W
  unfolding finish
  with_query s (err e) r c =
      (finish faults o.data_only (some e) (fail_stage configuration_stage e r), c)
  with_query s (ok sql) r c =
      let r' = set_status configuration_stage (codes "passed") r in
      let (error, r'', c') = verify o (ops out s sql o.allow_empty) r' c in
      if is_empty s.folder
      then (
        finish faults o.data_only (some folder_required)
            (fail_stage configuration_stage folder_required r),
        c,
      )
      else (finish faults o.data_only error r'', c')

  -- `run` behind the flags.
  unfoldable pub run : (Text → Text) → Clients W → Exit × Clients W
  unfolding settings with_query
  run getenv c =
      let s = settings getenv in
      if faults.invalid_env
      then (no_report, c)
      else if faults.no_directory
      then (no_report, c)
      else with_query s (comparison_sql s.project s.silver s.gold) (new_report o.mutate o.data_only)
          c
