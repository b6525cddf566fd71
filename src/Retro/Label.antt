-- ===== src/Retro/Label.antt =====
-- `ExtractRetroLabel` of internal/parser/retro_metadata.go: which label a heading has, and that the
-- first line that is not blank decides.
use go_drive_etl.Common.{
  ℕ, zero, suc, some, true, false, [], ◌∷◌, inl, inr, ◌≡◌, arith, ◌≤◌, ◌+◌, ◌*◌, Text, ◌++◌, le→leb,
  text_eq, ◌/◌, codes, ◌%◌, ◌-◌, ap, if-eq_some, text_eq_refl, Bool, Option-cases, ◌&&◌, ◌==◌, List,
  sym, ◌∙◌, split, Bool-cases, is_empty, trim_space, trim_right,
}
use go_drive_etl.Retro.Calendar.{
  parse_month, format_month, read_digits, read_month, read_year_month, pad2, pad4,
}
use go_drive_etl.Retro.{
  RetroLabel, decimal, label_of_match, retro_heading, valid_month, checked_month, is_number,
  max_int32, is_digit, is_month, extract_retro_label, label_of_lines, trim_bom, is_line_blank,
}

-- What a label from a heading satisfies.
pub record IsLabel (label : RetroLabel) : Type 0 where
  pub year : ℕ
  pub month : ℕ
  pub valid : valid_month label.month ≡ some (year, month)
  pub sequence_pos : 1 ≤ label.sequence
  pub sequence_le : label.sequence ≤ max_int32

abbrev pub newline : ℕ
newline = 10

-- The heading `# YYYYMM-N` of a month, with the number as it is written.
abbrev pub heading : ℕ → ℕ → Text → Text
heading y m number = b'#' ∷ b' ' ∷ pad4 y ++ pad2 m ++ b'-' ∷ number

abbrev pub label_for : ℕ → ℕ → Text → RetroLabel
label_for y m number = record { month = format_month y m; sequence = decimal 0 number }

is_digit-pad : (n : ℕ) → is_digit (b'0' + n % 10) ≡ true
is_digit-pad n = ground arith

is_month-pad : (m : ℕ) → 1 ≤ m → m ≤ 12 → is_month (b'0' + m / 10 % 10) (b'0' + m % 10) ≡ true
is_month-pad m h k = ground arith

pub retro_heading-heading :
    (y m : ℕ) (number : Text)
    → 1 ≤ m
    → m ≤ 12
    → is_number number ≡ true
    → retro_heading (heading y m number) ≡ some (pad4 y, pad2 m, number)
unfolding retro_heading
retro_heading-heading y m number hm hm' hn = rw (
  is_digit-pad (y / 1000),
  is_digit-pad (y / 100),
  is_digit-pad (y / 10),
  is_digit-pad y,
  is_month-pad m hm hm',
  hn,
)

year_named : (y : ℕ) → 1 ≤ y → y ≤ 9999 → text_eq (pad4 y) (codes "0000") ≡ false
year_named y h k = ground arith

pub label_of_match-pad :
    (y m : ℕ) (number : Text)
    → 1 ≤ y
    → y ≤ 9999
    → decimal 0 number ≤ max_int32
    → label_of_match (some (pad4 y, pad2 m, number)) ≡ some (label_for y m number)
unfolding label_of_match format_month
label_of_match-pad y m number hy hy' fits =
    rw (year_named y hy hy', le→leb (decimal 0 number) max_int32 fits)

is_digit-bounds : (c : ℕ) → is_digit c ≡ true → (b'0' ≤ c) × (c ≤ b'9')
is_digit-bounds c h = ground arith

-- Digits are those of the number that they spell.
pad4-digits :
    (a b c d : ℕ)
    → is_digit a ≡ true
    → is_digit b ≡ true
    → is_digit c ≡ true
    → is_digit d ≡ true
    → (y : ℕ) × (pad4 y ≡ a ∷ b ∷ c ∷ d ∷ []) × (y ≤ 9999)
pad4-digits a b c d ha hb hc hd =
    let p = is_digit-bounds a ha in
    let q = is_digit-bounds b hb in
    let r = is_digit-bounds c hc in
    let s = is_digit-bounds d hd in
    let y = (a - b'0') * 1000 + (b - b'0') * 100 + (c - b'0') * 10 + (d - b'0') in
    (y, four (omega arith) (omega arith) (omega arith) (omega arith), omega arith)
  where
    four :
        {a b c d a' b' c' d' : ℕ}
        → a ≡ a'
        → b ≡ b'
        → c ≡ c'
        → d ≡ d'
        → ◌≡◌ {A = Text} (a ∷ b ∷ c ∷ d ∷ []) (a' ∷ b' ∷ c' ∷ d' ∷ [])
    four p q r s = cc

pad2-digits : (a b : ℕ) → is_month a b ≡ true → (m : ℕ) × (pad2 m ≡ a ∷ b ∷ []) × (1 ≤ m) × (m ≤ 12)
pad2-digits a b h = ((a - b'0') * 10 + (b - b'0'), ground arith, ground arith, ground arith)

heading_tests :
    (a b c d e f g h i : Bool)
    → (a && b && c && d && e && f && g && h && i) ≡ true
    → (c ≡ true) × (d ≡ true) × (e ≡ true) × (f ≡ true) × (g ≡ true) × (i ≡ true)
heading_tests a b c d e f g h i t = ground arith

-- A matched heading is that of a month.
retro_heading-eq_some :
    (s : Text) {g : Text × Text × Text}
    → retro_heading s ≡ some g
    → (y m : ℕ) × (number : Text) × (g ≡ (pad4 y, pad2 m, number))
      × (y ≤ 9999)
      × (1 ≤ m)
      × (m ≤ 12)
      × (is_number number ≡ true)
unfolding retro_heading
retro_heading-eq_some (h ∷ b ∷ y1 ∷ y2 ∷ y3 ∷ y4 ∷ m1 ∷ m2 ∷ d ∷ number) e =
    let (tests, same) = if-eq_some _ e in
    let (t1, t2, t3, t4, t5, t6) =
      heading_tests (h == b'#') (b == b' ') (is_digit y1) (is_digit y2) (is_digit y3) (is_digit y4)
        (is_month m1 m2) (d == b'-') (is_number number) tests in
    let (y, ey, hy) = pad4-digits y1 y2 y3 y4 t1 t2 t3 t4 in
    let (m, em, hm, hm') = pad2-digits m1 m2 t5 in
    (y, m, number, sym same ∙ rw (ey, em), hy, hm, hm', t6)
retro_heading-eq_some _ e = cc

read_digits-pad4 :
    (y : ℕ)
    → y ≤ 9999
    → read_digits (b'0' + y / 1000 % 10) (b'0' + y / 100 % 10) (b'0' + y / 10 % 10) (b'0' + y % 10)
      ≡ some y
unfolding read_digits
read_digits-pad4 y h =
    rw (is_digit-pad (y / 1000), is_digit-pad (y / 100), is_digit-pad (y / 10), is_digit-pad y)
      (ap some (omega arith))

read_month-pad2 :
    (m : ℕ) → 1 ≤ m → m ≤ 12 → read_month (b'0' + m / 10 % 10) (b'0' + m % 10) ≡ some m
unfolding read_month
read_month-pad2 m h k = rw (is_digit-pad (m / 10), is_digit-pad m) (ground arith)

-- A month that is printed passes the test of `NewSprintPolicy` and `Period`.
pub valid_month-format :
    (y m : ℕ) → 1 ≤ y → y ≤ 9999 → 1 ≤ m → m ≤ 12 → valid_month (format_month y m) ≡ some (y, m)
unfolding valid_month
valid_month-format y m hy hy' hm hm' =
    let e : parse_month (format_month y m) ≡ some (y, m) =
      unfold parse_month format_month read_year_month in
      rw (read_digits-pad4 y hy', read_month-pad2 m hm hm') in
    rw e (unfold checked_month in rw (text_eq_refl (format_month y m)) (ground arith))

valid_month-text :
    (y m : ℕ)
    → 1 ≤ y
    → y ≤ 9999
    → 1 ≤ m
    → m ≤ 12
    → valid_month (pad4 y ++ b'-' ∷ pad2 m) ≡ some (y, m)
unfolding format_month
valid_month-text = valid_month-format

label_of_match-eq_some :
    (year month number : Text) {label : RetroLabel}
    → label_of_match (some (year, month, number)) ≡ some label
    → (text_eq year (codes "0000") ≡ false)
      × (decimal 0 number ≤ max_int32)
      × (label ≡ record { month = year ++ b'-' ∷ month; sequence = decimal 0 number })
unfolding label_of_match
label_of_match-eq_some year month number h = ground arith

year_pos : (y : ℕ) → text_eq (pad4 y) (codes "0000") ≡ false → 1 ≤ y
year_pos zero h = cc
year_pos (suc y) h = omega arith

le-decimal : (n : ℕ) (s : Text) → n ≤ decimal n s
le-decimal n [] = omega arith
le-decimal n (c ∷ s) = omega (arith, le-decimal (n * 10 + (c - b'0')) s)

decimal-pos : (number : Text) → is_number number ≡ true → 1 ≤ decimal 0 number
decimal-pos [] h = cc
decimal-pos (c ∷ s) h = ground (arith, le-decimal (0 * 10 + (c - b'0')) s)

label_of_match-IsLabel :
    (s : Text) {label : RetroLabel} → label_of_match (retro_heading s) ≡ some label → IsLabel label
label_of_match-IsLabel s h = elim (Option-cases (retro_heading s)) [
  | inl e ↦ absurd (unfold label_of_match in cc)
  | inr (g, e) ↦
      let (y, m, number, same, hy, hm, hm', hn) = retro_heading-eq_some s e in
      let (named, fits, is) =
        label_of_match-eq_some (pad4 y) (pad2 m) number
          (ap label_of_match (sym (e ∙ ap some same)) ∙ h) in
      let pos = year_pos y named in
      record {
        year = y;
        month = m;
        valid = rw is (valid_month-text y m pos hy hm hm');
        sequence_pos = rw is (decimal-pos number hn);
        sequence_le = rw is fits;
      }
]

-- Every label that a document yields has a month that `Period` accepts, with a year from 1 on,
-- and a positive number that fits an int32.
pub extract_retro_label-IsLabel :
    (content : Text) {label : RetroLabel} → extract_retro_label content ≡ some label → IsLabel label
unfolding extract_retro_label
extract_retro_label-IsLabel content h = lines_IsLabel (split newline (trim_bom content)) h
  where
    lines_IsLabel :
        (lines : List Text) {label : RetroLabel} → label_of_lines lines ≡ some label → IsLabel label
    lines_IsLabel [] e = cc
    lines_IsLabel (line ∷ lines) e = elim (Bool-cases (is_empty (trim_space line))) [
      | inl blank ↦ lines_IsLabel lines (rw blank at e)
      | inr text ↦ label_of_match-IsLabel (trim_right is_line_blank line) (rw text at e)
    ]
