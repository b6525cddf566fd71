-- ===== src/GoldVerify/Query/Names.antt =====
-- What the two regular expressions of internal/goldverify/query.go let through.

use go_drive_etl.Common.{none, true, [], ◌∷◌, Text, ◌≡◌, refl, arith}
use go_drive_etl.GoldVerify.Query.{
  validate, matches_project, matches_name, is_project_tail, all_words,
}
use go_drive_etl.GoldVerify.Query.Scan.{all_names}

-- What the regular expressions let through.
pub all_words-names : (s : Text) → all_words s ≡ true → all_names s ≡ true
all_words-names [] h = refl
all_words-names (c ∷ s) h = ground (arith, all_words-names s)

pub matches_name-names : (s : Text) → matches_name s ≡ true → all_names s ≡ true
unfolding matches_name
matches_name-names [] h = refl
matches_name-names (c ∷ s) h = ground (arith, all_words-names s)

pub is_project_tail-names : (s : Text) → is_project_tail s ≡ true → all_names s ≡ true
is_project_tail-names [] h = refl
is_project_tail-names (c ∷ []) h = ground arith
is_project_tail-names (c ∷ d ∷ s) h = ground (arith, is_project_tail-names (d ∷ s))

pub matches_project-names : (s : Text) → matches_project s ≡ true → all_names s ≡ true
unfolding matches_project
matches_project-names [] h = refl
matches_project-names (c ∷ s) h = ground (arith, is_project_tail-names s)

pub not_empty : (silver gold : Text) → validate [] silver gold ≡ none → ⊥
unfolding validate matches_project
not_empty silver gold h = ground arith

-- Names that pass are names, so that nothing in them ends the path or its quotes.
pub validate-names :
    (project silver gold : Text)
    → validate project silver gold ≡ none
    → (all_names project ≡ true) × (all_names silver ≡ true) × (all_names gold ≡ true)
unfolding validate
validate-names project silver gold h =
    ground
      (arith, matches_project-names project, matches_name-names silver, matches_name-names gold)
