-- ===== src/Csv.antt =====
-- The package encoding/csv as internal/bq/client.go writes with it (comma, no CRLF, into a
-- buffer, where nothing fails) and internal/goldverify/verify.go reads with it (a default reader,
-- `ReadAll`).
pub mod Fields
pub mod RoundTrip
mod Tests
use go_drive_etl.Common.{
  ℕ, zero, suc, none, some, true, false, [], ◌∷◌, ok, err, Text, codes, Bool, Error, List, Option,
  Result, if◌then◌else◌, message, not, text_eq, ◌&&◌, ◌||◌, ◌==◌, length, ◌++◌, is_space,
}

abbrev pub comma : ℕ
comma = b','

abbrev pub quote : ℕ
quote = b'"'

abbrev pub newline : ℕ
newline = 10

abbrev pub carriage_return : ℕ
carriage_return = 13

-- The units for which a field is quoted wherever they stand.
abbrev pub is_special : ℕ → Bool
is_special c = c == newline || c == carriage_return || c == quote || c == comma

abbrev pub has_special : Text → Bool
has_special [] = false
has_special (c ∷ s) = is_special c || has_special s

-- `fieldNeedsQuotes`.
pub needs_quotes : Text → Bool
needs_quotes [] = false
needs_quotes (c ∷ s) = text_eq (c ∷ s) (codes "\\.") || has_special (c ∷ s) || is_space c

-- The units of a quoted field: a quote is doubled.
pub escape : Text → Text
escape [] = []
escape (c ∷ s) = (if c == quote then quote ∷ quote ∷ [] else c ∷ []) ++ escape s

unfoldable pub write_field : Text → Text
unfolding needs_quotes escape
write_field s = if needs_quotes s then quote ∷ (escape s ++ quote ∷ []) else s

pub write_fields : List Text → Text
write_fields [] = []
write_fields (f ∷ []) = write_field f
write_fields (f ∷ g ∷ fields) = write_field f ++ comma ∷ write_fields (g ∷ fields)

-- `Write`.
unfoldable pub write_record : List Text → Text
unfolding write_fields
write_record fields = write_fields fields ++ newline ∷ []

unfoldable pub write_records : List (List Text) → Text
write_records [] = []
write_records (r ∷ records) = write_record r ++ write_records records

-- `readLine` over the whole input: CR before LF and CR at the end are left out.
pub normalize : Text → Text
normalize [] = []
normalize (c ∷ []) = if c == carriage_return then [] else c ∷ []
normalize (c ∷ d ∷ s) =
    (if c == carriage_return && d == newline then [] else c ∷ []) ++ normalize (d ∷ s)

-- Where the reader stands: before a record, before a further field, in a field, in a quoted one,
-- and behind a quote in a quoted one.
pub data Mode : Type 0 where
  at_record at_field in_field in_quotes after_quote : Mode

-- The field, the fields before it, and the records before it.
pub record State : Type 0 where
  pub mode : Mode
  pub field : Text
  pub fields : List Text
  pub records : List (List Text)

abbrev pub bare_quote : Error
bare_quote = message (codes "bare \" in non-quoted-field")

abbrev pub stray_quote : Error
stray_quote = message (codes "extraneous or missing \" in quoted-field")

abbrev pub field_count : Error
field_count = message (codes "wrong number of fields")

-- Whether a record has as many fields as the first.
abbrev pub fits : List (List Text) → List Text → Bool
fits [] fields = true
fits (r ∷ records) fields = length r == length fields

-- The end of a field that another follows.
abbrev pub next_field : State → State
next_field s = record s { mode = at_field; field = []; fields = s.fields ++ s.field ∷ [] }

-- The end of a record.
abbrev pub add_record : List (List Text) → List Text → Result State
add_record records fields =
    if fits records fields
    then ok (record { mode = at_record; field = []; fields = []; records = records ++ fields ∷ [] })
    else err field_count

abbrev pub next_record : State → Result State
next_record s = add_record s.records (s.fields ++ s.field ∷ [])

-- A unit of a field without quotes.
pub step_plain : State → ℕ → Result State
step_plain s c =
    if c == comma
    then ok (next_field s)
    else if c == newline
    then next_record s
    else if c == quote
    then err bare_quote
    else ok (record s { mode = in_field; field = s.field ++ c ∷ [] })

-- The first unit of a field.
pub step_first : State → ℕ → Result State
unfolding step_plain
step_first s c = if c == quote then ok (record s { mode = in_quotes }) else step_plain s c

pub step_in : Mode → State → ℕ → Result State
unfolding step_first
step_in at_record s c = if c == newline then ok s else step_first s c
step_in at_field s c = step_first s c
step_in in_field s c = step_plain s c
step_in in_quotes s c =
    if c == quote
    then ok (record s { mode = after_quote })
    else ok (record s { field = s.field ++ c ∷ [] })
step_in after_quote s c =
    if c == quote
    then ok (record s { mode = in_quotes; field = s.field ++ c ∷ [] })
    else if c == comma
    then ok (next_field s)
    else if c == newline
    then next_record s
    else err stray_quote

-- The end of the input.
abbrev pub records_of : Result State → Result (List (List Text))
records_of (err e) = err e
records_of (ok s) = ok s.records

pub end_in : Mode → State → Result (List (List Text))
end_in at_record s = ok s.records
end_in in_quotes s = err stray_quote
end_in _ s = records_of (next_record s)

pub read_from : State → Text → Result (List (List Text))
unfolding step_in end_in
read_from s [] = end_in s.mode s
read_from s (c ∷ t) = elim (step_in s.mode s c) [ err e ↦ err e | ok s' ↦ read_from s' t ]

abbrev pub before_records : State
before_records = record { mode = at_record; field = []; fields = []; records = [] }

-- `ReadAll`.
unfoldable pub read_all : Text → Result (List (List Text))
unfolding normalize read_from
read_all s = read_from before_records (normalize s)
