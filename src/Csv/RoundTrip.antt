-- ===== src/Csv/RoundTrip.antt =====
-- What is written as CSV is read back: internal/bq/client.go writes the tables, and
-- internal/goldverify/verify.go reads them.
use go_drive_etl.Common.{
  ℕ, true, false, [], ◌∷◌, ok, Text, Bool, List, ◌≡◌, refl, sym, ap, ◌∙◌, not, ◌&&◌, ◌==◌, length,
  ◌++◌, arith, append_assoc, append-nil,
}
use go_drive_etl.Csv.{
  comma, newline, write_field, write_fields, write_record, write_records, at_record, at_field, fits,
  step_plain, step_first, step_in, read_from, end_in, before_records, read_all,
}
use go_drive_etl.Csv.Fields.{
  no_returns, no_field_returns, no_returns-append, no_returns-write_fields, normalize-no_returns,
  in_state, start_mode, read_field,
}

-- A record that is written as an empty line, which the reader passes over.
abbrev pub is_blank : List Text → Bool
is_blank [] = true
is_blank ([] ∷ []) = true
is_blank _ = false

-- What a record of a table with `n` columns satisfies.
abbrev pub is_row : ℕ → List Text → Bool
is_row n fields = length fields == n && not (is_blank fields) && no_field_returns fields

abbrev pub are_rows : ℕ → List (List Text) → Bool
are_rows n [] = true
are_rows n (r ∷ rows) = is_row n r && are_rows n rows

module _ (records : List (List Text)) where
  empty-newline :
      (first : Bool) (fields : List Text) (f : Text)
      → (first ≡ true → is_blank (f ∷ []) ≡ false)
      → fits records (fields ++ f ∷ []) ≡ true
      → f ≡ []
      → step_in (start_mode first) (in_state (start_mode first) [] fields records) newline
        ≡ ok (in_state at_record [] [] (records ++ (fields ++ f ∷ []) ∷ []))
  unfolding step_in step_first step_plain
  empty-newline true fields [] blank fit e = let h = blank refl in cc
  empty-newline false fields [] blank fit e = rw fit
  empty-newline first fields (c ∷ u) blank fit e = cc

  empty-comma :
      (first : Bool) (fields : List Text) (f : Text)
      → f ≡ []
      → step_in (start_mode first) (in_state (start_mode first) [] fields records) comma
        ≡ ok (in_state at_field [] (fields ++ f ∷ []) records)
  unfolding step_in step_first step_plain
  empty-comma true fields [] e = refl
  empty-comma false fields [] e = refl
  empty-comma first fields (c ∷ u) e = cc

  read_record :
      (first : Bool) (fields : List Text) (f : Text) (rest : List Text) (r : Text)
      → (first ≡ true → is_blank (f ∷ rest) ≡ false)
      → fits records (fields ++ f ∷ rest) ≡ true
      → read_from
          (in_state (start_mode first) [] fields records)
          (write_fields (f ∷ rest) ++ newline ∷ r)
        ≡ read_from (in_state at_record [] [] (records ++ (fields ++ f ∷ rest) ∷ [])) r
  unfolding write_fields step_in step_first step_plain
  read_record first fields f [] r blank fit =
      read_field first fields records f newline r
        (in_state at_record [] [] (records ++ (fields ++ f ∷ []) ∷ []))
        (empty-newline first fields f blank fit) (rw fit) (rw fit)
  read_record first fields f (g ∷ rest) r blank fit =
      ap (read_from (in_state (start_mode first) [] fields records))
        (append_assoc (write_field f) (comma ∷ write_fields (g ∷ rest)) (newline ∷ r))
      ∙ read_field first fields records f comma (write_fields (g ∷ rest) ++ newline ∷ r)
          (in_state at_field [] (fields ++ f ∷ []) records) (empty-comma first fields f) refl refl
      ∙ read_record false (fields ++ f ∷ []) g rest r (λ e. cc)
          (ap (fits records) (append_assoc fields (f ∷ []) (g ∷ rest)) ∙ fit)
      ∙ ap (λ q. read_from (in_state at_record [] [] (records ++ q ∷ [])) r)
          (append_assoc fields (f ∷ []) (g ∷ rest))

-- The rows behind a first record.
read_rows :
    (h : List Text) (before rows : List (List Text))
    → are_rows (length h) rows ≡ true
    → read_from (in_state at_record [] [] (h ∷ before)) (write_records rows)
      ≡ ok (h ∷ (before ++ rows))
unfolding write_records write_record
read_rows h before [] e = unfold read_from end_in in ap (λ q. ok (h ∷ q)) (sym (append-nil before))
read_rows h before ([] ∷ rows) e = ground arith
read_rows h before ((f ∷ rest) ∷ rows) e =
    ap (read_from (in_state at_record [] [] (h ∷ before)))
      (append_assoc (write_fields (f ∷ rest)) (newline ∷ []) (write_records rows))
    ∙ read_record (h ∷ before) true [] f rest (write_records rows) (λ q. ground arith)
        (ground arith)
    ∙ read_rows h (before ++ (f ∷ rest) ∷ []) rows (ground arith)
    ∙ ap (λ q. ok (h ∷ q)) (append_assoc before ((f ∷ rest) ∷ []) rows)

-- A table read from its text.
read_table :
    (h : List Text) (rows : List (List Text))
    → is_row (length h) h ≡ true
    → are_rows (length h) rows ≡ true
    → read_from before_records (write_records (h ∷ rows)) ≡ ok (h ∷ rows)
unfolding write_records write_record
read_table [] rows eh er = cc
read_table (f ∷ rest) rows eh er =
    ap (read_from before_records)
      (append_assoc (write_fields (f ∷ rest)) (newline ∷ []) (write_records rows))
    ∙ read_record [] true [] f rest (write_records rows) (λ q. ground arith) refl
    ∙ read_rows (f ∷ rest) [] rows er

no_returns-write_records :
    (n : ℕ) (rows : List (List Text))
    → are_rows n rows ≡ true
    → no_returns (write_records rows) ≡ true
unfolding write_records write_record
no_returns-write_records n [] e = refl
no_returns-write_records n (fields ∷ rows) e =
    no_returns-append (write_fields fields ++ newline ∷ []) (write_records rows)
      (no_returns-append (write_fields fields) (newline ∷ [])
        (no_returns-write_fields fields (ground arith)) refl)
      (no_returns-write_records n rows (ground arith))

-- A table of which every record has as many fields as the first, no record is a single empty field
-- (or none), and no field has a carriage return is read from the text it is written as.
pub read_all-write_records :
    (h : List Text) (rows : List (List Text))
    → are_rows (length h) (h ∷ rows) ≡ true
    → read_all (write_records (h ∷ rows)) ≡ ok (h ∷ rows)
unfolding read_all
read_all-write_records h rows e =
    ap (read_from before_records) (
      normalize-no_returns (write_records (h ∷ rows))
        (no_returns-write_records (length h) (h ∷ rows) e))
    ∙ read_table h rows (ground arith) (ground arith)
