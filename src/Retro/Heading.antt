-- ===== src/Retro/Heading.antt =====
-- `ExtractRetroLabel` of internal/parser/retro_metadata.go at a document that opens with a heading.
use go_drive_etl.Common.{
  ℕ, refl, some, true, false, [], ◌∷◌, ◌≡◌, arith, ◌≤◌, ◌+◌, Text, ◌++◌, ◌/◌, ◌%◌, ap, ◌==◌, List,
  ◌∙◌, split, All, is_empty, trim_space, trim_right, All-append, append-nil, All-map, append_assoc,
  is_space,
}
use go_drive_etl.Common.TextLaws.{
  trim_space_keeps, trim_right-append, split_whole, trim_right_tail, split-append, is_space-head,
}
use go_drive_etl.Retro.Calendar.{pad2, pad4}
use go_drive_etl.Retro.{
  decimal, is_number, max_int32, extract_retro_label, label_of_lines, trim_bom, is_line_blank,
  all_digits,
}
use go_drive_etl.Retro.Label.{
  newline, heading, label_for, retro_heading-heading, label_of_match-pad,
}

-- A line of which nothing remains when it is trimmed.
abbrev pub IsBlank : Text → Type 0
IsBlank line = All (λ c. (c == newline) ≡ false) line × (is_empty (trim_space line) ≡ true)

abbrev pub blank_lines : List Text → Text
blank_lines [] = []
blank_lines (line ∷ lines) = line ++ newline ∷ blank_lines lines

-- What may stand behind the heading's line: nothing, or a line break and any text.
pub data Rest : Text → Type 0 where
  at_end : Rest []
  more : (s : Text) → Rest (newline ∷ s)

digits_kept : (s : Text) → all_digits s ≡ true → All (λ c. is_line_blank c ≡ false) s
digits_kept [] h = tt
digits_kept (c ∷ s) h = ground (arith, digits_kept s)

number_kept : (s : Text) → is_number s ≡ true → All (λ c. is_line_blank c ≡ false) s
number_kept [] h = tt
number_kept (c ∷ s) h = ground (arith, digits_kept s)

trim_right-heading :
    (y m : ℕ) (number trailing : Text)
    → is_number number ≡ true
    → All (λ c. is_line_blank c ≡ true) trailing
    → trim_right is_line_blank (heading y m number ++ trailing) ≡ heading y m number
trim_right-heading y m [] trailing h k = cc
trim_right-heading y m (c ∷ s) trailing h k =
    trim_right-append is_line_blank (heading y m []) c (c ∷ s ++ trailing) s
      (trim_right_tail is_line_blank (c ∷ s) trailing (number_kept (c ∷ s) h) k)

abbrev IsInLine : Text → Type 0
IsInLine = All (λ c. (c == newline) ≡ false)

digit_in_line : (n : ℕ) → ((b'0' + n % 10) == newline) ≡ false
digit_in_line n = ground arith

digits-IsInLine : (s : Text) → all_digits s ≡ true → IsInLine s
digits-IsInLine [] h = tt
digits-IsInLine (c ∷ s) h = ground (arith, digits-IsInLine s)

number-IsInLine : (s : Text) → is_number s ≡ true → IsInLine s
number-IsInLine [] h = tt
number-IsInLine (c ∷ s) h = ground (arith, digits-IsInLine s)

blank_in_line : (c : ℕ) → is_line_blank c ≡ true → (c == newline) ≡ false
blank_in_line c h = ground arith

heading-IsInLine :
    (y m : ℕ) (number trailing : Text)
    → is_number number ≡ true
    → All (λ c. is_line_blank c ≡ true) trailing
    → IsInLine (heading y m number ++ trailing)
heading-IsInLine y m number trailing h k =
    let d = digit_in_line in
    (
      refl,
      (
        refl,
        (
          d (y / 1000),
          (
            d (y / 100),
            (
              d (y / 10),
              (
                d y,
                (
                  d (m / 10),
                  (
                    d m,
                    (
                      refl,
                      All-append _ number trailing (number-IsInLine number h)
                          (All-map blank_in_line trailing k),
                    ),
                  ),
                ),
              ),
            ),
          ),
        ),
      ),
    )

split-Rest :
    (p : Text) {r : Text}
    → IsInLine p
    → Rest r
    → (ps : List Text) × (split newline (p ++ r) ≡ p ∷ ps)
split-Rest p h at_end = ([], rw append-nil (split_whole newline p h))
split-Rest p h (more s) = (split newline s, split-append newline p s h)

label_of_lines-blank :
    (blanks : List Text) (rest : Text)
    → All IsBlank blanks
    → label_of_lines (split newline (blank_lines blanks ++ rest))
      ≡ label_of_lines (split newline rest)
unfolding label_of_lines
label_of_lines-blank [] rest h = refl
label_of_lines-blank (b ∷ blanks) rest ((line, blank), h) =
    rw (append_assoc, split-append newline b (blank_lines blanks ++ rest) line, blank)
      (label_of_lines-blank blanks rest h)

label_of_lines-heading :
    (y m : ℕ) (number trailing : Text) (lines : List Text)
    → 1 ≤ y
    → y ≤ 9999
    → 1 ≤ m
    → m ≤ 12
    → is_number number ≡ true
    → decimal 0 number ≤ max_int32
    → All (λ c. is_line_blank c ≡ true) trailing
    → label_of_lines ((heading y m number ++ trailing) ∷ lines) ≡ some (label_for y m number)
unfolding label_of_lines
label_of_lines-heading y m number trailing lines hy hy' hm hm' hn fits ht =
    rw
      (
        trim_space_keeps b'#' (b' ' ∷ pad4 y ++ pad2 m ++ b'-' ∷ number ++ trailing) refl,
        trim_right-heading y m number trailing hn ht,
        retro_heading-heading y m number hm hm' hn,
      )
      (label_of_match-pad y m number hy hy' fits)

-- The document whose first lines are blank and whose next line is the heading `# YYYYMM-N`, with
-- blanks, tabs and carriage returns behind it.
abbrev pub document : List Text → ℕ → ℕ → Text → Text → Text → Text
document blanks y m number trailing rest =
    blank_lines blanks ++ (heading y m number ++ trailing ++ rest)

label_of_lines-document :
    (blanks : List Text) (y m : ℕ) (number trailing : Text) {rest : Text}
    → All IsBlank blanks
    → 1 ≤ y
    → y ≤ 9999
    → 1 ≤ m
    → m ≤ 12
    → is_number number ≡ true
    → decimal 0 number ≤ max_int32
    → All (λ c. is_line_blank c ≡ true) trailing
    → Rest rest
    → label_of_lines (split newline (document blanks y m number trailing rest))
      ≡ some (label_for y m number)
label_of_lines-document blanks y m number trailing {rest} hb hy hy' hm hm' hn fits ht r =
    let line = heading y m number ++ trailing in
    let (ps, e) = split-Rest line (heading-IsInLine y m number trailing hn ht) r in
    label_of_lines-blank blanks (line ++ rest) hb
    ∙ ap label_of_lines e
    ∙ label_of_lines-heading y m number trailing ps hy hy' hm hm' hn fits ht

trim_bom-document :
    (blanks : List Text) (y m : ℕ) (number trailing rest : Text)
    → All IsBlank blanks
    → trim_bom (document blanks y m number trailing rest) ≡ document blanks y m number trailing rest
unfolding trim_bom
trim_bom-document [] y m number trailing rest h = refl
trim_bom-document ([] ∷ blanks) y m number trailing rest h = refl
trim_bom-document ((c ∷ b) ∷ blanks) y m number trailing rest ((line, blank), h) =
    let space = is_space-head c b blank in
    let e : (c == 0xfeff) ≡ false = space_ne_bom c space in rw e
  where
    space_ne_bom : (c : ℕ) → is_space c ≡ true → (c == 0xfeff) ≡ false
    space_ne_bom c h = ground arith

-- A document whose first line that is not blank is the heading `# YYYYMM-N` of a real month, with
-- blanks, tabs and carriage returns at most behind it, has the label of that month and number, if
-- the number fits an int32: with a byte order mark in front or none, and whatever follows.
pub extract_retro_label-document :
    (blanks : List Text) (y m : ℕ) (number trailing : Text) {rest : Text}
    → All IsBlank blanks
    → 1 ≤ y
    → y ≤ 9999
    → 1 ≤ m
    → m ≤ 12
    → is_number number ≡ true
    → decimal 0 number ≤ max_int32
    → All (λ c. is_line_blank c ≡ true) trailing
    → Rest rest
    → (extract_retro_label (document blanks y m number trailing rest) ≡ some (label_for y m number))
      × (extract_retro_label (0xfeff ∷ document blanks y m number trailing rest)
          ≡ some (label_for y m number))
unfolding extract_retro_label
extract_retro_label-document blanks y m number trailing {rest} hb hy hy' hm hm' hn fits ht r =
    let e = label_of_lines-document blanks y m number trailing hb hy hy' hm hm' hn fits ht r in
    (rw (trim_bom-document blanks y m number trailing rest hb) e, unfold trim_bom in e)
