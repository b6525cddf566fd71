-- ===== src/Workflow/Dashboard.antt =====
-- The address of the dashboard in the report of cmd/verify_gold/main.go: what `run` does before the
-- configuration is read. The outcome of reading docs/looker-studio.md is an argument.
use go_drive_etl.Common.{
  [], ◌∷◌, ok, err, Text, codes, Bool, Result, if◌then◌else◌, is_empty, has_prefix, drop, length,
  ◌++◌, ◌||◌, ◌==◌, ℕ,
}

-- `\s` of package regexp.
abbrev is_blank : ℕ → Bool
is_blank c = c == 9 || c == 10 || c == 12 || c == 13 || c == b' '

abbrev take_word : Text → Text
take_word [] = []
take_word (c ∷ s) = let rest = take_word s in if is_blank c then [] else c ∷ rest

abbrev studio : Text
studio = codes "https://datastudio.google.com/"

-- The match of `https://datastudio\.google\.com/[^\s]+` at the start of a text, or "".
abbrev match_at : Text → Text
match_at s =
    let word = take_word (drop (length studio) s) in
    if has_prefix s studio then if is_empty word then [] else studio ++ word else []

-- `FindString` of that pattern.
unfoldable pub find_dashboard : Text → Text
find_dashboard [] = []
find_dashboard (c ∷ s) =
    let rest = find_dashboard s in
    let found = match_at (c ∷ s) in if is_empty found then rest else found

unfoldable pub dashboard_url : Bool → (Text → Text) → Result Text → Text
unfolding find_dashboard
dashboard_url data_only getenv doc =
    let url = getenv (codes "GOLD_DASHBOARD_URL") in
    let documented = elim doc as (λ _. Text) [ err e ↦ [] | ok text ↦ find_dashboard text ] in
    if data_only then [] else if is_empty url then documented else url
