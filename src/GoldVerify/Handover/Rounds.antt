-- ===== src/GoldVerify/Handover/Rounds.antt =====
-- Two rounds of `Export` (internal/goldreport/export.go) and `CheckDrive`
-- (internal/goldverify/verify.go) on a folder without faults.
use go_drive_etl.Common.{
  none, some, false, [], ◌∷◌, ok, Text, Bool, List, Option, Result, ◌≡◌, refl, ap, ◌∙◌, arith,
  text_eq, text_eq_refl, map, not, ◌&&◌, is_empty, ◌++◌,
}
use go_drive_etl.Services.{DriveClient, DriveFile, Source}
use go_drive_etl.GoldReport.{export_reports}
use go_drive_etl.GoldVerify.{
  Checked, CsvResult, Ids, get_id, is_given, is_stable, check_csv, judge, with_download,
  with_export, check_table, check_tables, check_listed, check_drive,
}
use go_drive_etl.GoldVerify.Handover.{
  Stored, file_of, IsGold, daily, latest, DriveApi, ApiLaws, SourceLaws, client,
}
use go_drive_etl.GoldVerify.Handover.Folder.{count_files-one}
use go_drive_etl.GoldVerify.Handover.Api.{list_files_ok, download_file_ok}
use go_drive_etl.GoldVerify.Handover.Uploads.{
  IsTidy, Held, export_state, export_reports-after, after-Held,
}
use go_drive_etl.Common.{inl, inr, ℕ}

module _ {W : Type 0} (source : Source W) (api : DriveApi W) (fuel : ℕ) (md5 : Text → Text)
    (folder : Text) (stored : W → List Stored) (fresh : W → Text) (csv : Text → Text)
    (laws : ApiLaws api fuel md5 folder stored fresh) (tables : SourceLaws source csv)
    (named : is_empty folder ≡ false) where
  abbrev drive : DriveClient W
  drive = client api fuel

  abbrev after : W → W
  after = export_state source api fuel md5 folder stored fresh csv laws tables named

  module _ (read_csv : Text → Result (List (List Text))) (allow_empty : Bool)
      (accepted_daily : (check_csv read_csv daily (csv daily) (csv daily) allow_empty).1 ≡ none)
      (accepted_latest : (check_csv read_csv latest (csv latest) (csv latest) allow_empty).1
        ≡ none) where
    judge-passes :
        (previous : Option Ids) (table : Text) (ids : Ids)
        → (check_csv read_csv table (csv table) (csv table) allow_empty).1 ≡ none
        → (is_given previous && not (is_stable previous ids table)) ≡ false
        → (judge read_csv source drive allow_empty previous table ids (csv table) (csv table)).1
          ≡ none
    unfolding judge
    judge-passes previous table ids accepted stable = rw (judge, accepted, stable)

    -- One table whose file is held.
    check_table-passes :
        (previous : Option Ids) (table : Text) (f : Stored) (ids : Ids) (results : List CsvResult)
        (w : W)
        → IsGold table
        → (check_csv read_csv table (csv table) (csv table) allow_empty).1 ≡ none
        → Held (stored w) table (csv table) f
        → (is_given previous && not (is_stable previous ((table, f.id) ∷ ids) table)) ≡ false
        → (r : CsvResult) × (check_table read_csv source drive allow_empty previous table 1
              ((table, f.id) ∷ ids)
              results
              w
            ≡ (record { results = results ++ r ∷ []; ids = (table, f.id) ∷ ids; error = none }, w))
    check_table-passes previous table f ids results w gold accepted held stable =
        let ids' : Ids = (table, f.id) ∷ ids in
        let own : get_id ids' table ≡ f.id = rw (text_eq_refl table) in
        let got : drive.download_file f.id w ≡ (ok (csv table), w) =
          download_file_ok api fuel md5 folder stored fresh laws f w held.held
          ∙ ap (λ c. (ok c, w)) held.exact in
        (
          (judge read_csv source drive allow_empty previous table ids' (csv table) (csv table)).0,
          unfold check_table with_export in
              ap
                (λ x.
                  with_export read_csv source drive allow_empty previous table ids' results x.0 x.1)
                (tables.export_ok table w gold)
              ∙ ap
                  (λ x.
                    with_download read_csv source drive allow_empty previous table ids' results
                      (csv table) (drive.download_file x w).0 (drive.download_file x w).1)
                  own
              ∙ ap
                  (λ x.
                    with_download read_csv source drive allow_empty previous table ids' results
                      (csv table) x.0 x.1)
                  got
              ∙ unfold with_download in
                ap
                  (λ e. (
                    record {
                      results =
                          results
                          ++ (judge read_csv source drive allow_empty previous table ids'
                              (csv table) (csv table)).0
                            ∷ [];
                      ids = ids';
                      error = e;
                    },
                    w,
                  ))
                  (judge-passes previous table ids' accepted stable),
        )

    abbrev go_on : Option Ids → List DriveFile → List Text → Checked × W → Checked × W
    go_on previous files rest x = elim (x.0).error as (λ _. Checked × W) [
      | some e ↦ x
      | none ↦ check_tables read_csv source drive allow_empty previous files rest x.0 x.1
    ]

    check_tables-passes :
        (previous : Option Ids) (table : Text) (rest : List Text) (f : Stored) (ids : Ids)
        (results : List CsvResult) (w : W)
        → IsGold table
        → (check_csv read_csv table (csv table) (csv table) allow_empty).1 ≡ none
        → Held (stored w) table (csv table) f
        → (is_given previous && not (is_stable previous ((table, f.id) ∷ ids) table)) ≡ false
        → (r : CsvResult) × (check_tables read_csv source drive allow_empty previous
              (map (file_of md5) (stored w))
              (table ∷ rest)
              (record { results = results; ids = ids; error = none })
              w
            ≡ check_tables read_csv source drive allow_empty previous
                (map (file_of md5) (stored w))
                rest
                (record { results = results ++ r ∷ []; ids = (table, f.id) ∷ ids; error = none })
                w)
    check_tables-passes previous table rest f ids results w gold accepted held stable =
        let (r, passed) =
          check_table-passes previous table f ids results w gold accepted held stable in
        let files = map (file_of md5) (stored w) in
        (
          r,
          unfold check_tables in
              ap
                (λ x.
                  go_on previous files rest (
                    check_table read_csv source drive allow_empty previous table x.0 x.1 results w))
                (count_files-one md5 table (stored w) 0 ids f held.counted held.held held.named)
              ∙ ap (go_on previous files rest) passed,
        )

    check_drive-passes :
        (previous : Option Ids) (d l : Stored) (w : W)
        → Held (stored w) daily (csv daily) d
        → Held (stored w) latest (csv latest) l
        → (is_given previous && not (is_stable previous ((daily, d.id) ∷ []) daily)) ≡ false
        → (is_given previous
            && not (is_stable previous ((latest, l.id) ∷ (daily, d.id) ∷ []) latest))
          ≡ false
        → (rs : List CsvResult) × (check_drive read_csv source drive allow_empty previous folder w
            ≡ (record { results = rs; ids = (latest, l.id) ∷ (daily, d.id) ∷ []; error = none }, w))
    check_drive-passes previous d l w first second stable stable' =
        let files = map (file_of md5) (stored w) in
        let (r, one) =
          check_tables-passes previous daily (latest ∷ []) d [] [] w (inl refl) accepted_daily first
            stable in
        let (r', two) =
          check_tables-passes previous latest [] l ((daily, d.id) ∷ []) (r ∷ []) w (inr refl)
            accepted_latest second stable' in
        (
          r ∷ r' ∷ [],
          unfold check_drive check_listed check_tables in
              ap (λ x. check_listed read_csv source drive allow_empty previous x.0 x.1)
                (list_files_ok api fuel md5 folder stored fresh laws w)
              ∙ one
              ∙ two,
        )

    not_changed : (old new : Text) → new ≡ old → not (text_eq old new) ≡ false
    not_changed old new e = ap (λ x. not (text_eq old x)) e ∙ ap not (text_eq_refl old)

    -- Two rounds of an export and a check of it, through the calls of the Drive client, over an
    -- API that keeps its laws, on a folder that held at most one file of each name, and over
    -- tables that do not change and whose CSV text the check accepts: both exports succeed; the
    -- first check passes; and so does the second, which compares the IDs of the files with those
    -- that the first returned.
    pub two_rounds_pass :
        (w : W)
        → IsTidy (stored w)
        → (w' : W) × (c : Checked) × (w'' : W) × (c' : Checked) × (export_reports
              (client api fuel)
              source
              folder
              w
            ≡ (none, w'))
          × (check_drive read_csv source (client api fuel) allow_empty none folder w' ≡ (c, w'))
          × (c.error ≡ none)
          × (export_reports (client api fuel) source folder w' ≡ (none, w''))
          × (check_drive read_csv source (client api fuel) allow_empty (some c.ids) folder w''
              ≡ (c', w''))
          × (c'.error ≡ none)
          × (c'.ids ≡ c.ids)
    two_rounds_pass w tidy =
        let (d, l, one, two, _, _) =
          after-Held source api fuel md5 folder stored fresh csv laws tables named w tidy in
        let (rs, passed) = check_drive-passes none d l (after w) one two refl refl in
        let still : IsTidy (stored (after w)) =
          (omega (arith, one.counted), omega (arith, two.counted)) in
        let (d', l', one', two', kept, kept') =
          after-Held source api fuel md5 folder stored fresh csv laws tables named (after w)
            still in
        let same : d'.id ≡ d.id = kept d one.held one.named in
        let same' : l'.id ≡ l.id = kept' l two.held two.named in
        let (rs', passed') =
          check_drive-passes (some ((latest, l.id) ∷ (daily, d.id) ∷ [])) d' l' (after (after w))
            one' two' (not_changed d.id d'.id same) (not_changed l.id l'.id same') in
        (
          after w,
          _,
          after (after w),
          _,
          export_reports-after source api fuel md5 folder stored fresh csv laws tables named w tidy,
          passed,
          refl,
          export_reports-after source api fuel md5 folder stored fresh csv laws tables named
              (after w) still,
          passed',
          refl,
          ap (λ (x : Text). (latest, x) ∷ (daily, d'.id) ∷ []) same'
              ∙ ap (λ (x : Text). (latest, l.id) ∷ (daily, x) ∷ []) same,
        )
