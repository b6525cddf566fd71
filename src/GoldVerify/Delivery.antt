-- ===== src/GoldVerify/Delivery.antt =====
-- What a delivery that passes `CheckCSV` and `CheckDrive` of internal/goldverify/verify.go is like.
use go_drive_etl.GoldReport
use go_drive_etl.Common.{
  ℕ, refl, none, true, false, [], ◌∷◌, ok, err, Text, codes, arith, inl, inr, ◌≡◌, Bool, Option,
  Result, List, length, text_eq, ◌↔◌, text_eq_refl, text_eq_iff, ◌⊎◌, ◌≤◌, if◌then◌else◌, ◌++◌, ◌+◌,
  Bool-cases, ◌==◌, ==_iff, Option-cases, sym, append-nil, ap, ◌∙◌, append_assoc,
}
use go_drive_etl.Services.{DriveClient, DriveFile, Source}
use go_drive_etl.GoldVerify.{
  CsvResult, Ids, check_csv, check_records, is_given, judge, expected_columns, check_table,
  count_files, with_download, with_export, Checked, check_drive, check_tables, check_listed,
}

-- What `CheckCSV` accepts: the exact bytes, with a header of the expected width and rows behind it,
-- unless none are allowed.
pub record IsAccepted (table want got : Text) (allow_empty : Bool)
    (read : Result (List (List Text))) : Type 0 where
  pub same : want ≡ got
  pub header : List Text
  pub records : List (List Text)
  pub readable : read ≡ ok (header ∷ records)
  pub width : length header ≡ expected_columns table
  pub not_empty : (allow_empty ≡ true) ⊎ (1 ≤ length records)

check_records-IsAccepted :
    (table want got : Text) (allow_empty : Bool) (read : Result (List (List Text)))
    → (check_records table (text_eq want got) allow_empty read).1 ≡ none
    → IsAccepted table want got allow_empty read
unfolding check_records
check_records-IsAccepted table want got allow_empty (err e) h = cc
check_records-IsAccepted table want got allow_empty (ok []) h = cc
check_records-IsAccepted table want got allow_empty (ok (header ∷ records)) h = record {
  same = ground (arith, text_eq_iff want got);
  header = header;
  records = records;
  readable = refl;
  width = ground arith;
  not_empty = ground arith;
}

-- `CheckCSV` raises no error exactly for a delivery that is byte for byte the export and has the
-- expected shape.
pub check_csv-IsAccepted :
    (read_csv : Text → Result (List (List Text))) (table want got : Text) (allow_empty : Bool)
    → ((check_csv read_csv table want got allow_empty).1 ≡ none)
      ↔ IsAccepted table want got allow_empty (read_csv got)
unfolding check_csv
check_csv-IsAccepted read_csv table want got allow_empty = (
  check_records-IsAccepted table want got allow_empty (read_csv got),
  λ v. rw v.readable (unfold check_records in rw v.same (ground (arith, text_eq_refl got))),
)

-- The result of a table that passed: same bytes, no duplicate, and the ID of the run before, if
-- there was one.
abbrev pub IsGood : Option Ids → Text → CsvResult → Type 0
IsGood previous table r =
    (r.table ≡ table)
    × (r.matched ≡ true)
    × (r.duplicates ≡ 0)
    × (is_given previous ≡ true → r.stable_id ≡ true)

check_records-passed :
    (table : Text) (matched allow_empty : Bool) (read : Result (List (List Text)))
    → (check_records table matched allow_empty read).1 ≡ none
    → (((check_records table matched allow_empty read).0).table ≡ table)
      × (((check_records table matched allow_empty read).0).matched ≡ true)
      × (((check_records table matched allow_empty read).0).duplicates ≡ 0)
unfolding check_records
check_records-passed table matched allow_empty (err e) h = cc
check_records-passed table matched allow_empty (ok []) h = cc
check_records-passed table matched allow_empty (ok (header ∷ records)) h = ground arith

-- How many files bear the name of a table's CSV.
pub count_named : Text → List DriveFile → ℕ
count_named table [] = 0
count_named table (f ∷ files) =
    (if text_eq f.name (table ++ codes ".csv") then 1 else 0) + count_named table files

count_files-count_named :
    (table : Text) (files : List DriveFile) (count : ℕ) (ids : Ids)
    → (count_files table files count ids).0 ≡ count + count_named table files
unfolding count_files count_named
count_files-count_named table [] count ids = omega arith
count_files-count_named table (f ∷ files) count ids = ground (
  arith,
  count_files-count_named table files (count + 1) ((table, f.id) ∷ ids),
  count_files-count_named table files count ids,
)

module _ {W : Type 0} (read_csv : Text → Result (List (List Text))) (source : Source W)
    (dest : DriveClient W) (allow_empty : Bool) (previous : Option Ids) where
  judge-IsGood :
      (table : Text) (ids : Ids) (want got : Text)
      → (judge read_csv source dest allow_empty previous table ids want got).1 ≡ none
      → IsGood previous table (judge read_csv source dest allow_empty previous table ids want got).0
  unfolding judge check_csv
  judge-IsGood table ids want got h =
      let passed = check_records-passed table (text_eq want got) allow_empty (read_csv got) in
      ground (arith, passed)

  -- The list of results after a table that passed.
  abbrev Extends : Text → List CsvResult → List CsvResult → Type 0
  Extends table old new = (r : CsvResult) × (new ≡ old ++ r ∷ []) × IsGood previous table r

  with_download-Extends :
      (table : Text) (ids : Ids) (results : List CsvResult) (want : Text) (got : Result Text)
      (w : W)
      → ((with_download read_csv source dest allow_empty previous table ids results want got w).0
        ).error
        ≡ none
      → Extends table results
          ((with_download read_csv source dest allow_empty previous table ids results want got w).0
            ).results
  unfolding with_download
  with_download-Extends table ids results want (err e) w h = cc
  with_download-Extends table ids results want (ok got) w h = (
    (judge read_csv source dest allow_empty previous table ids want got).0,
    refl,
    judge-IsGood table ids want got h,
  )

  with_export-Extends :
      (table : Text) (ids : Ids) (results : List CsvResult) (want : Result Text) (w : W)
      → ((with_export read_csv source dest allow_empty previous table ids results want w).0).error
        ≡ none
      → Extends table results
          ((with_export read_csv source dest allow_empty previous table ids results want w).0
            ).results
  unfolding with_export
  with_export-Extends table ids results (err e) w h = cc
  with_export-Extends table ids results (ok want) w h =
      with_download-Extends table ids results want _ _ h

  check_table-Extends :
      (table : Text) (count : ℕ) (ids : Ids) (results : List CsvResult) (w : W)
      → ((check_table read_csv source dest allow_empty previous table count ids results w).0).error
        ≡ none
      → (count ≡ 1)
        × Extends table results
            ((check_table read_csv source dest allow_empty previous table count ids results w).0
              ).results
  check_table-Extends table count ids results w h = elim (Bool-cases (count == 1)) [
    | inl one ↦
        let e = check_table-one table count ids results w one in
        ((==_iff count 1).0 one, rw e (with_export-Extends table ids results _ _ (rw e at h)))
    | inr other ↦ absurd (check_table-other table count ids results w other h)
  ]
    where
      check_table-one :
          (table : Text) (count : ℕ) (ids : Ids) (results : List CsvResult) (w : W)
          → (count == 1) ≡ true
          → check_table read_csv source dest allow_empty previous table count ids results w
            ≡ with_export read_csv source dest allow_empty previous table ids results
                (source.export_table_csv table w).0
                (source.export_table_csv table w).1
      check_table-one table count ids results w one = unfold check_table in rw one

      check_table-other :
          (table : Text) (count : ℕ) (ids : Ids) (results : List CsvResult) (w : W)
          → (count == 1) ≡ false
          → ((check_table read_csv source dest allow_empty previous table count ids results w).0
            ).error
            ≡ none
          → ⊥
      check_table-other table count ids results w other h = unfold check_table in ground arith

  -- The results of a loop that passed: one good result for each table, and one file of its name.
  abbrev pub Delivered : List DriveFile → List Text → List CsvResult → Type 0
  Delivered files [] [] = Unit
  Delivered files [] (r ∷ rs) = ⊥
  Delivered files (table ∷ rest) [] = ⊥
  Delivered files (table ∷ rest) (r ∷ rs) =
      (count_named table files ≡ 1) × IsGood previous table r × Delivered files rest rs

  abbrev run_tables : List DriveFile → List Text → Checked → W → Checked × W
  run_tables = check_tables read_csv source dest allow_empty previous

  abbrev run_table : Text → List DriveFile → Checked → W → Checked × W
  run_table table files c w =
      check_table read_csv source dest allow_empty previous table
        (count_files table files 0 c.ids).0 (count_files table files 0 c.ids).1 c.results w

  check_tables-cons :
      (files : List DriveFile) (table : Text) (rest : List Text) (c : Checked) (w : W)
      → ((run_tables files (table ∷ rest) c w).0).error ≡ none
      → (((run_table table files c w).0).error ≡ none)
        × (run_tables files (table ∷ rest) c w
            ≡ run_tables files rest (run_table table files c w).0 (run_table table files c w).1)
  unfolding check_tables
  check_tables-cons files table rest c w h =
      elim (Option-cases ((run_table table files c w).0).error) [
        | inl e ↦ (e, ground arith)
        | inr (x, e) ↦ absurd (ground arith)
      ]

  check_tables-Delivered :
      (files : List DriveFile) (tables : List Text) (c : Checked) (w : W)
      → ((run_tables files tables c w).0).error ≡ none
      → (rs : List CsvResult) × (((run_tables files tables c w).0).results ≡ c.results ++ rs)
        × Delivered files tables rs
  check_tables-Delivered files [] c w h =
      ([], unfold check_tables in sym (append-nil c.results), tt)
  check_tables-Delivered files (table ∷ rest) c w h =
      let (first, same) = check_tables-cons files table rest c w h in
      let (one, extends) = check_table-Extends table _ _ c.results w first in
      let (r, new, good) = extends in
      let (rs, more, delivered) =
        check_tables-Delivered files rest (run_table table files c w).0
          (run_table table files c w).1 (rw same at h) in
      let counted : count_named table files ≡ 1 =
        omega (arith, count_files-count_named table files 0 c.ids, one) in
      (
        r ∷ rs,
        ap (λ x. (x.0).results) same
            ∙ more
            ∙ ap (λ l. l ++ rs) new
            ∙ append_assoc c.results (r ∷ []) rs,
        (counted, good, delivered),
      )

  check_listed-Delivered :
      (listed : Result (List DriveFile)) (w : W)
      → ((check_listed read_csv source dest allow_empty previous listed w).0).error ≡ none
      → (files : List DriveFile) × (listed ≡ ok files)
        × Delivered files GoldReport.tables
            ((check_listed read_csv source dest allow_empty previous listed w).0).results
  unfolding check_listed
  check_listed-Delivered (err e) w h = cc
  check_listed-Delivered (ok files) w h =
      let (rs, e, delivered) = check_tables-Delivered files GoldReport.tables _ w h in
      (files, refl, rw e delivered)

  -- A check of the folder that raises no error found, for each table in turn, exactly one file of
  -- its name, and returns for it a result that bears the table's name, says that the contents are
  -- the exported ones, has no duplicates and, if there was a check before, says that the ID is
  -- that of then; and no further result.
  pub check_drive-Delivered :
      (folder : Text) (w : W)
      → ((check_drive read_csv source dest allow_empty previous folder w).0).error ≡ none
      → (files : List DriveFile) × ((dest.list_files folder w).0 ≡ ok files)
        × Delivered files GoldReport.tables
            ((check_drive read_csv source dest allow_empty previous folder w).0).results
  unfolding check_drive
  check_drive-Delivered folder w h = check_listed-Delivered _ _ h
