-- ===== src/Csv/Fields.antt =====
-- How the reader reads a field that the writer wrote (encoding/csv).
use go_drive_etl.Common.{
  ℕ, true, false, [], ◌∷◌, ok, Text, Bool, List, ◌≡◌, refl, sym, ap, ◌∙◌, if◌then◌else◌, not, ◌&&◌,
  ◌==◌, ◌++◌, arith, append_assoc, append-nil, Bool-cases, inl, inr,
}
use go_drive_etl.Csv.{
  quote, carriage_return, is_special, has_special, needs_quotes, escape, write_field, normalize,
  Mode, at_record, at_field, in_field, in_quotes, after_quote, State, step_plain, step_first,
  step_in, read_from, write_fields, comma,
}

abbrev pub no_returns : Text → Bool
no_returns [] = true
no_returns (c ∷ s) = not (c == carriage_return) && no_returns s

pub normalize-no_returns : (s : Text) → no_returns s ≡ true → normalize s ≡ s
unfolding normalize
normalize-no_returns [] h = refl
normalize-no_returns (c ∷ []) h = ground arith
normalize-no_returns (c ∷ d ∷ s) h = ground (arith, normalize-no_returns (d ∷ s))

pub no_returns-append :
    (s t : Text) → no_returns s ≡ true → no_returns t ≡ true → no_returns (s ++ t) ≡ true
no_returns-append [] t hs ht = ht
no_returns-append (c ∷ s) t hs ht = ground (arith, no_returns-append s t)

no_returns-escape : (s : Text) → no_returns s ≡ true → no_returns (escape s) ≡ true
unfolding escape
no_returns-escape [] h = refl
no_returns-escape (c ∷ s) h =
    no_returns-append (if c == quote then quote ∷ quote ∷ [] else c ∷ []) (escape s)
      (elim (Bool-cases (c == quote)) [
        | inl e ↦ ap (λ b. no_returns (if b then quote ∷ quote ∷ [] else c ∷ [])) e
        | inr e ↦ ap (λ b. no_returns (if b then quote ∷ quote ∷ [] else c ∷ [])) e ∙ ground arith
      ])
      (no_returns-escape s (ground arith))

no_returns-write_field : (f : Text) → no_returns f ≡ true → no_returns (write_field f) ≡ true
unfolding write_field
no_returns-write_field f h = elim (Bool-cases (needs_quotes f)) [
  | inl e ↦
      ap (λ b. no_returns (if b then quote ∷ (escape f ++ quote ∷ []) else f)) e
      ∙ no_returns-append (escape f) (quote ∷ []) (no_returns-escape f h) refl
  | inr e ↦ ap (λ b. no_returns (if b then quote ∷ (escape f ++ quote ∷ []) else f)) e ∙ h
]

abbrev pub no_field_returns : List Text → Bool
no_field_returns [] = true
no_field_returns (f ∷ fields) = no_returns f && no_field_returns fields

pub no_returns-write_fields :
    (fields : List Text) → no_field_returns fields ≡ true → no_returns (write_fields fields) ≡ true
unfolding write_fields
no_returns-write_fields [] h = refl
no_returns-write_fields (f ∷ []) h = no_returns-write_field f (ground arith)
no_returns-write_fields (f ∷ g ∷ fields) h =
    no_returns-append (write_field f) (comma ∷ write_fields (g ∷ fields))
      (no_returns-write_field f (ground arith))
      (no_returns-write_fields (g ∷ fields) (ground arith))

-- A step of the reader that does not fail.
pub read_from-step :
    (s s' : State) (c : ℕ) (r : Text)
    → step_in s.mode s c ≡ ok s'
    → read_from s (c ∷ r) ≡ read_from s' r
unfolding read_from
read_from-step s s' c r e = rw (read_from, e)

eq_of_== : (c d : ℕ) → c == d ≡ true → c ≡ d
eq_of_== c d h = ground arith

abbrev pub in_state : Mode → Text → List Text → List (List Text) → State
in_state mode field fields records = record {
  mode = mode;
  field = field;
  fields = fields;
  records = records;
}

module _ (fields : List Text) (records : List (List Text)) where
  read_plain :
      (u field r : Text)
      → has_special u ≡ false
      → read_from (in_state in_field field fields records) (u ++ r)
        ≡ read_from (in_state in_field (field ++ u) fields records) r
  read_plain [] field r h = rw append-nil
  read_plain (c ∷ u) field r h =
      read_from-step (in_state in_field field fields records)
        (in_state in_field (field ++ c ∷ []) fields records) c (u ++ r)
        (unfold step_in step_plain in ground arith)
      ∙ read_plain u (field ++ c ∷ []) r (ground arith)
      ∙ rw append_assoc

  read_quoted :
      (u field r : Text)
      → read_from (in_state in_quotes field fields records) (escape u ++ quote ∷ r)
        ≡ read_from (in_state after_quote (field ++ u) fields records) r
  unfolding escape
  read_quoted [] field r =
      read_from-step (in_state in_quotes field fields records)
        (in_state after_quote field fields records) quote r (unfold step_in in refl)
      ∙ rw append-nil
  read_quoted (c ∷ u) field r = elim (Bool-cases (c == quote)) [
    | inl h ↦
        ap (λ q. read_from (in_state in_quotes field fields records) (q ++ quote ∷ r))
          (ap (λ b. (if b then quote ∷ quote ∷ [] else c ∷ []) ++ escape u) h)
        ∙ read_from-step (in_state in_quotes field fields records)
            (in_state after_quote field fields records) quote (quote ∷ (escape u ++ quote ∷ r))
            (unfold step_in in refl)
        ∙ read_from-step (in_state after_quote field fields records)
            (in_state in_quotes (field ++ quote ∷ []) fields records) quote (escape u ++ quote ∷ r)
            (unfold step_in in refl)
        ∙ read_quoted u (field ++ quote ∷ []) r
        ∙ ap (λ q. read_from (in_state after_quote q fields records) r)
            (append_assoc field (quote ∷ []) u
              ∙ ap (λ q. field ++ q ∷ u) (sym (eq_of_== c quote h)))
    | inr h ↦
        ap (λ q. read_from (in_state in_quotes field fields records) (q ++ quote ∷ r))
          (ap (λ b. (if b then quote ∷ quote ∷ [] else c ∷ []) ++ escape u) h)
        ∙ read_from-step (in_state in_quotes field fields records)
            (in_state in_quotes (field ++ c ∷ []) fields records) c (escape u ++ quote ∷ r)
            (unfold step_in in ground arith)
        ∙ read_quoted u (field ++ c ∷ []) r
        ∙ rw append_assoc
  ]

-- Where a field starts: whether it is the first of its record.
abbrev pub start_mode : Bool → Mode
start_mode true = at_record
start_mode false = at_field

first_is_plain : (c : ℕ) (u : Text) → needs_quotes (c ∷ u) ≡ false → is_special c ≡ false
unfolding needs_quotes
first_is_plain c u h = ground arith

rest_is_plain : (c : ℕ) (u : Text) → needs_quotes (c ∷ u) ≡ false → has_special u ≡ false
unfolding needs_quotes
rest_is_plain c u h = ground arith

module _ (fields : List Text) (records : List (List Text)) where
  step-quote :
      (first : Bool)
      → step_in (start_mode first) (in_state (start_mode first) [] fields records) quote
        ≡ ok (in_state in_quotes [] fields records)
  unfolding step_in step_first
  step-quote true = refl
  step-quote false = refl

  step-plain :
      (first : Bool) (c : ℕ)
      → is_special c ≡ false
      → step_in (start_mode first) (in_state (start_mode first) [] fields records) c
        ≡ ok (in_state in_field (c ∷ []) fields records)
  unfolding step_in step_first step_plain
  step-plain true c h = ground arith
  step-plain false c h = ground arith

module _ (first : Bool) (fields : List Text) (records : List (List Text)) where
  -- A field and the unit behind it.
  pub read_field :
      (f : Text) (d : ℕ) (r : Text) (s : State)
      → (f ≡ []
          → step_in (start_mode first) (in_state (start_mode first) [] fields records) d ≡ ok s)
      → step_in in_field (in_state in_field f fields records) d ≡ ok s
      → step_in after_quote (in_state after_quote f fields records) d ≡ ok s
      → read_from (in_state (start_mode first) [] fields records) (write_field f ++ d ∷ r)
        ≡ read_from s r
  unfolding write_field needs_quotes
  read_field [] d r s empty plain quoted =
      read_from-step (in_state (start_mode first) [] fields records) s d r (empty refl)
  read_field (c ∷ u) d r s empty plain quoted = elim (Bool-cases (needs_quotes (c ∷ u))) [
    | inl h ↦
        ap
          (λ b.
            read_from (in_state (start_mode first) [] fields records)
              ((if b then quote ∷ (escape (c ∷ u) ++ quote ∷ []) else c ∷ u) ++ d ∷ r))
          h
        ∙ read_from-step (in_state (start_mode first) [] fields records)
            (in_state in_quotes [] fields records) quote ((escape (c ∷ u) ++ quote ∷ []) ++ d ∷ r)
            (step-quote fields records first)
        ∙ ap (read_from (in_state in_quotes [] fields records))
            (append_assoc (escape (c ∷ u)) (quote ∷ []) (d ∷ r))
        ∙ read_quoted fields records (c ∷ u) [] (d ∷ r)
        ∙ read_from-step (in_state after_quote (c ∷ u) fields records) s d r quoted
    | inr h ↦
        ap
          (λ b.
            read_from (in_state (start_mode first) [] fields records)
              ((if b then quote ∷ (escape (c ∷ u) ++ quote ∷ []) else c ∷ u) ++ d ∷ r))
          h
        ∙ read_from-step (in_state (start_mode first) [] fields records)
            (in_state in_field (c ∷ []) fields records) c (u ++ d ∷ r)
            (step-plain fields records first c (first_is_plain c u h))
        ∙ read_plain fields records u (c ∷ []) (d ∷ r) (rest_is_plain c u h)
        ∙ read_from-step (in_state in_field (c ∷ u) fields records) s d r plain
  ]
