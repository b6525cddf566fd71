-- ===== src/Bq/Export.antt =====
-- The content of an export (`ExportTableCSV` of internal/bq/client.go).
use go_drive_etl.Common.{
  none, some, [], ◌∷◌, ok, err, Text, List, Option, Result, Bool-cases, inl, inr, ◌>>=◌, refl, sym,
  ap, ◌∙◌, ◌≡◌, if◌then◌else◌, ◌++◌, map, append_assoc, append-nil,
}
use go_drive_etl.Csv.{write_record, write_records}
use go_drive_etl.Bq.{
  Rows, done, failed, next, RowIterator, Client, record_of, write_rows, export_rows, export_query,
  matches_table, export_table_csv, invalid_table, some,
}

-- All rows, or the error that ends them.
abbrev pub collect : {A : Type 0} → Rows A → Result (List (Text → Option A))
collect done = ok []
collect (failed e) = err e
collect (next row rest) = collect rest >>= λ rows. ok (row ∷ rows)

module _ {A : Type 0} (sprint : A → Text) where
  -- The table whose header is the schema.
  abbrev pub table_of : List Text → List (Text → Option A) → List (List Text)
  table_of schema rows = schema ∷ map (record_of sprint schema) rows

  abbrev content : List Text → Text → List (Text → Option A) → Text
  content schema buf rows = buf ++ write_records (map (record_of sprint schema) rows)

  collect-next :
      (r : Result (List (Text → Option A))) (schema : List Text) (buf : Text)
      (row : Text → Option A)
      → (r >>= λ rows. ok (content schema (buf ++ write_record (record_of sprint schema row)) rows))
        ≡ ((r >>= λ rows. ok (row ∷ rows)) >>= λ rows. ok (content schema buf rows))
  unfolding write_records
  collect-next (err e) schema buf row = refl
  collect-next (ok rows) schema buf row = ap ok (append_assoc buf _ _)

  write_rows-content :
      (schema : List Text) (buf : Text) (rows : Rows A)
      → write_rows sprint schema buf rows ≡ (collect rows >>= λ all. ok (content schema buf all))
  unfolding write_rows write_records
  write_rows-content schema buf done = ap ok (sym (append-nil buf))
  write_rows-content schema buf (failed e) = refl
  write_rows-content schema buf (next row rest) =
      write_rows-content schema (buf ++ write_record (record_of sprint schema row)) rest
      ∙ collect-next (collect rest) schema buf row

  pub export_rows-content :
      (schema : List Text) (rows : Rows A)
      → export_rows sprint schema rows
        ≡ (collect rows >>= λ all. ok (write_records (table_of schema all)))
  unfolding export_rows write_rows write_records
  export_rows-content schema done = write_rows-content schema (write_record schema) done
  export_rows-content schema (failed e) = refl
  export_rows-content schema (next row rest) =
      write_rows-content schema (write_record schema) (next row rest)

  read-content :
      {W : Type 0} (r : Result (RowIterator A)) (w : W)
      → (elim r as (λ _. Result Text × W) [
        | err e ↦ (err e, w)
        | ok it ↦ (export_rows sprint it.schema it.rows, w)
      ]).0
        ≡ (r >>= (λ it. collect it.rows >>= λ rows. ok (write_records (table_of it.schema rows))))
  read-content (err e) w = refl
  read-content (ok it) w = export_rows-content it.schema it.rows

  -- What a CSV shows of a value, and of a row: the values of the columns in their order.
  abbrev pub shown : Option A → Text
  shown none = []
  shown (some v) = sprint v

  abbrev pub cells : List Text → (Text → Option A) → List Text
  cells [] row = []
  cells (name ∷ names) row = shown (row name) ∷ cells names row

  abbrev pub lines : List Text → List (Text → Option A) → List (List Text)
  lines schema [] = []
  lines schema (row ∷ rows) = cells schema row ∷ lines schema rows

  cells-cons :
      (names : List Text) (row : Text → Option A) (name : Text) (v : Option A)
      → row name ≡ v
      → record_of sprint names row ≡ cells names row
      → record_of sprint (name ∷ names) row ≡ shown v ∷ cells names row
  unfolding record_of
  cells-cons names row name none e h = rw e (ap (λ rest. [] ∷ rest) h)
  cells-cons names row name (some v) e h = rw e (ap (λ rest. sprint v ∷ rest) h)

  record_of-cells :
      (schema : List Text) (row : Text → Option A) → record_of sprint schema row ≡ cells schema row
  record_of-cells [] row = unfold record_of in refl
  record_of-cells (name ∷ names) row =
      cells-cons names row name (row name) refl (record_of-cells names row)

  table_of-lines :
      (schema : List Text) (rows : List (Text → Option A))
      → table_of schema rows ≡ schema ∷ lines schema rows
  table_of-lines schema [] = refl
  table_of-lines schema (row ∷ rows) = cc (record_of-cells schema row, table_of-lines schema rows)

  rows-lines :
      (schema : List Text) (r : Result (List (Text → Option A)))
      → (r >>= λ rows. ok (write_records (table_of schema rows)))
        ≡ (r >>= λ rows. ok (write_records (schema ∷ lines schema rows)))
  rows-lines schema (err e) = refl
  rows-lines schema (ok rows) = ap (λ t. ok (write_records t)) (table_of-lines schema rows)

  read-lines :
      (r : Result (RowIterator A))
      → (r >>= (λ it. collect it.rows >>= λ rows. ok (write_records (table_of it.schema rows)))) ≡ (
          r >>= (λ it.
            collect it.rows >>= λ rows. ok (write_records (it.schema ∷ lines it.schema rows))))
  read-lines (err e) = refl
  read-lines (ok it) = rows-lines it.schema (collect it.rows)

  pub export_table_csv-table_of :
      {W : Type 0} (c : Client A W) (table : Text) (w : W)
      → (export_table_csv c sprint table w).0 ≡ (
          if matches_table table
          then (c.bq.read (export_query c table) w).0
            >>= (λ it. collect it.rows >>= λ rows. ok (write_records (table_of it.schema rows)))
          else err invalid_table)
  unfolding export_table_csv
  export_table_csv-table_of c table w =
      let (iter, w') = c.bq.read (export_query c table) w in
      elim (Bool-cases (matches_table table)) [ inl e ↦ rw e (read-content iter w') | inr e ↦ rw e ]

  -- An export gives an error for a name that is no identifier, the error of the query, or that of
  -- the iterator; else the CSV text of one record with the names of the schema's columns and one
  -- for each row, in the order of the query, with the row's values in the order of the columns
  -- and an empty field for a null. No part of a table is given along with an error.
  pub export_table_csv-content :
      {W : Type 0} (c : Client A W) (table : Text) (w : W)
      → (export_table_csv c sprint table w).0 ≡ (
          if matches_table table
          then (c.bq.read (export_query c table) w).0 >>= (λ it.
              collect it.rows >>= λ rows. ok (write_records (it.schema ∷ lines it.schema rows)))
          else err invalid_table)
  export_table_csv-content c table w =
      export_table_csv-table_of c table w ∙ elim (Bool-cases (matches_table table)) [
        | inl e ↦ rw e (read-lines (c.bq.read (export_query c table) w).0)
        | inr e ↦ rw e refl
      ]
