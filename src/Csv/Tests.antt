-- ===== src/Csv/Tests.antt =====
-- A table with cells that are quoted, read from its text.
use go_drive_etl.Common.{[], ◌∷◌, ok, codes, Text, ◌≡◌, List, refl}
use go_drive_etl.Csv.{write_records, write_record, write_field, read_all}

abbrev header : List Text
header = codes "name" ∷ codes "note" ∷ []

abbrev rows : List (List Text)
rows = (codes "a,b" ∷ codes "he said \"no\"" ∷ []) ∷ ([] ∷ codes " \n" ∷ []) ∷ []

abbrev text : Text
text = codes "name,note\n\"a,b\",\"he said \"\"no\"\"\"\n,\" \n\"\n"

written : write_records (header ∷ rows) ≡ text
unfolding write_records write_record write_field
written = refl

-- A table with a single column loses an empty cell.
lost :
    read_all (write_records ((codes "name" ∷ []) ∷ ([] ∷ []) ∷ [])) ≡ ok ((codes "name" ∷ []) ∷ [])
unfolding read_all write_records write_record write_field
lost = refl
