-- ===== src/GoldVerify/Query/Tables.antt =====
-- The tables of the query of internal/goldverify/query.go, and the texts between them.

use go_drive_etl.Common.{
  length-append, Bool-cases, ℕ, true, false, [], ◌∷◌, Text, Bool, List, ◌≡◌, refl, ap, ◌&&◌, length,
  ◌++◌, has_prefix, text_eq, text_eq_iff, arith, inl, inr,
}
use go_drive_etl.GoldVerify.Query.{
  Table, silver_chunks, daily, latest, table_name, fill, template, template_end,
}
use go_drive_etl.GoldVerify.Query.Scan.{all_names, is_break, no_dots, ends_in_break}

-- Two tables are the same.
abbrev pub same_table : Table → Table → Bool
same_table silver_chunks silver_chunks = true
same_table daily daily = true
same_table latest latest = true
same_table _ _ = false

-- A text that stands behind a path begins with a break.
abbrev pub opens : Text → Bool
opens [] = false
opens (c ∷ s) = is_break c

abbrev pub opens_next : List (Text × Table) → Text → Bool
opens_next [] end = opens end
opens_next ((t, table) ∷ rest) end = opens t

-- The texts of a format have no dots, and breaks where they meet a path.
abbrev pub is_format : List (Text × Table) → Text → Bool
is_format [] end = no_dots end
is_format ((t, table) ∷ rest) end =
    no_dots t && ends_in_break t && opens_next rest end && is_format rest end

pub template-is_format : is_format template template_end ≡ true
unfolding template template_end
template-is_format = refl

-- A table's name before a break is no other table's name.
pub table_name-prefix :
    (t t' : Table) (z : ℕ) (r : Text)
    → is_break z ≡ true
    → has_prefix (table_name t ++ z ∷ r) (table_name t') ≡ same_table t t'
table_name-prefix silver_chunks silver_chunks z r b = refl
table_name-prefix silver_chunks daily z r b = refl
table_name-prefix silver_chunks latest z r b = refl
table_name-prefix daily silver_chunks z r b = refl
table_name-prefix daily daily z r b = refl
table_name-prefix daily latest z r b = refl
table_name-prefix latest silver_chunks z r b = refl
table_name-prefix latest daily z r b = refl
table_name-prefix latest latest z r b = refl

pub table_name-names : (t : Table) → all_names (table_name t) ≡ true
table_name-names silver_chunks = refl
table_name-names daily = refl
table_name-names latest = refl

-- A text is not the one that it ends.
pub text_eq-longer : (x : ℕ) (w u : Text) → text_eq u (x ∷ (w ++ u)) ≡ false
text_eq-longer x w u = elim (Bool-cases (text_eq u (x ∷ (w ++ u)))) [
  | inl e ↦
      absurd (omega (arith, ap length ((text_eq_iff u (x ∷ (w ++ u))).0 e), length-append w u))
  | inr e ↦ e
]

pub eq_of_same_table : (t t' : Table) → same_table t t' ≡ true → t ≡ t'
eq_of_same_table silver_chunks silver_chunks h = refl
eq_of_same_table silver_chunks daily h = cc
eq_of_same_table silver_chunks latest h = cc
eq_of_same_table daily silver_chunks h = cc
eq_of_same_table daily daily h = refl
eq_of_same_table daily latest h = cc
eq_of_same_table latest silver_chunks h = cc
eq_of_same_table latest daily h = cc
eq_of_same_table latest latest h = refl

pub same_table_refl : (t : Table) → same_table t t ≡ true
same_table_refl silver_chunks = refl
same_table_refl daily = refl
same_table_refl latest = refl

pub opens-append : (s r : Text) → opens s ≡ true → opens (s ++ r) ≡ true
opens-append [] r h = cc
opens-append (c ∷ s) r h = h

pub opens-fill :
    (write : Table → Text) (rest : List (Text × Table)) (end : Text)
    → opens_next rest end ≡ true
    → opens (fill write rest end) ≡ true
unfolding fill
opens-fill write [] end h = h
opens-fill write ((t, table) ∷ rest) end h = opens-append t _ h
