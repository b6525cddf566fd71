-- ===== src/Markdown/Sections.antt =====
-- The sections of internal/parser/md.go, against a partition of the lines that says nothing of the
-- loop: a group begins at the first line and at each heading.
use go_drive_etl.Common.{
  ◌≡◌, true, false, List, [], ◌∷◌, ◌++◌, if◌then◌else◌, concat, All, Text, is_empty, join,
  trim_space, arith, split, ◌<◌, Bool-cases, append-nil, length, ok, ℕ, ap, inl, sym, inr, ◌∙◌,
  append_assoc, refl, ◌==◌,
}
use go_drive_etl.Markdown.Chunks.{IsBounded, chunk_sections-IsBounded}
use go_drive_etl.Markdown.{
  newline, is_heading, flush, parse, section_loop, split_markdown_sections, replace_crlf,
  default_max_chunk_chars, chunk_sections,
}

-- The texts of groups of lines: joined, trimmed, and left out if nothing remains.
abbrev pub section_of : List Text → Text
section_of group = trim_space (join newline group)

pub section_texts : List (List Text) → List Text
section_texts [] = []
section_texts (group ∷ groups) =
    let rest = section_texts groups in
    if is_empty (section_of group) then rest else section_of group ∷ rest

abbrev pub IsBody : List Text → Type 0
IsBody = All (λ line. is_heading line ≡ false)

-- A group that a heading opens, and in which no other line is a heading.
abbrev pub IsHeadingGroup : List Text → Type 0
IsHeadingGroup [] = ⊥
IsHeadingGroup (line ∷ body) = (is_heading line ≡ true) × IsBody body

-- The first group may open with any line.
abbrev pub IsFirstGroup : List Text → Type 0
IsFirstGroup [] = ⊥
IsFirstGroup (line ∷ body) = IsBody body

-- A partition of the lines in order.
pub record IsPartition (lines : List Text) (first : List Text) (groups : List (List Text))
    : Type 0 where
  pub spells : first ++ concat groups ≡ lines
  pub opening : IsFirstGroup first
  pub headed : All IsHeadingGroup groups

-- The lines before the first heading, and the groups that the headings open.
group_lines : List Text → List Text × List (List Text)
group_lines [] = ([], [])
group_lines (line ∷ lines) =
    let (body, groups) = group_lines lines in
    if is_heading line then ([], (line ∷ body) ∷ groups) else (line ∷ body, groups)

group_lines_lem :
    (lines : List Text)
    → ((group_lines lines).0 ++ concat (group_lines lines).1 ≡ lines)
      × IsBody (group_lines lines).0
      × All IsHeadingGroup (group_lines lines).1
unfolding group_lines
group_lines_lem [] = (refl, tt, tt)
group_lines_lem (line ∷ lines) = ground (arith, group_lines_lem lines)

flush-section_texts :
    (sections group : List Text) (groups : List (List Text))
    → flush sections group ++ section_texts groups ≡ sections ++ section_texts (group ∷ groups)
unfolding flush section_texts
flush-section_texts sections group groups = elim (Bool-cases (is_empty (section_of group))) [
  | inl e ↦ rw e
  | inr e ↦ rw e (append_assoc sections (section_of group ∷ []) (section_texts groups))
]

section_loop_lem :
    (lines sections : List Text) (line : Text) (body : List Text)
    → section_loop lines sections (line ∷ body)
      ≡ sections ++ section_texts ((line ∷ body ++ (group_lines lines).0) ∷ (group_lines lines).1)
unfolding section_loop group_lines
section_loop_lem [] sections line body = rw (append-nil body) (
    sym (append-nil (flush sections (line ∷ body)))
    ∙ unfold section_texts in flush-section_texts sections (line ∷ body) [])
section_loop_lem (next ∷ lines) sections line body = elim (Bool-cases (is_heading next)) [
  | inl e ↦
      rw (e, section_loop_lem lines (flush sections (line ∷ body)) next [], append-nil body)
        (flush-section_texts sections (line ∷ body) _)
  | inr e ↦ rw (e, section_loop_lem lines sections line (body ++ next ∷ [])) (simp append_assoc)
]

section_loop_first :
    (line : Text) (lines : List Text)
    → section_loop (line ∷ lines) [] [] ≡ section_loop lines [] (line ∷ [])
unfolding section_loop
section_loop_first line lines = elim (Bool-cases (is_heading line)) [ inl e ↦ rw e | inr e ↦ rw e ]

split-cons : (sep : ℕ) (s : Text) → (p : Text) × (ps : List Text) × (split sep s ≡ p ∷ ps)
unfolding split
split-cons sep [] = ([], [], refl)
split-cons sep (c ∷ s) =
    let (p, ps, e) = split-cons sep s in
    elim (Bool-cases (c == sep)) [
      | inl cut ↦ ([], p ∷ ps, ground arith)
      | inr go ↦ (c ∷ p, ps, ground arith)
    ]

-- The lines of a document, cut at the line breaks of either kind, fall into groups, in order and
-- with nothing left over: the first has no heading behind its first line, each other one opens with
-- a heading and has no second. The sections are the texts of the groups, joined by line breaks and
-- trimmed, without those of which nothing remains.
pub split_markdown_sections-IsPartition :
    (content : Text)
    → (first : List Text) × (groups : List (List Text)) × IsPartition
        (split newline (replace_crlf content))
        first
        groups
      × (split_markdown_sections content ≡ section_texts (first ∷ groups))
unfolding split_markdown_sections
split_markdown_sections-IsPartition content =
    let (line, lines, e) = split-cons newline (replace_crlf content) in
    let (spelled, bare, headed) = group_lines_lem lines in
    (
      line ∷ (group_lines lines).0,
      (group_lines lines).1,
      record {
        spells = ap (λ (r : List Text). line ∷ r) spelled ∙ sym e;
        opening = bare;
        headed = headed;
      },
      ap (λ (r : List Text). section_loop r [] []) e
          ∙ section_loop_first line lines
          ∙ section_loop_lem lines [] line [],
    )

section_texts-HasText : (groups : List (List Text)) → All (λ s. 0 < length s) (section_texts groups)
unfolding section_texts
section_texts-HasText [] = tt
section_texts-HasText (group ∷ groups) = ground (arith, section_texts-HasText groups)

sections-HasText : (content : Text) → All (λ s. 0 < length s) (split_markdown_sections content)
sections-HasText content =
    let (first, groups, _, e) = split_markdown_sections-IsPartition content in
    rw e (section_texts-HasText (first ∷ groups))

-- Whatever the document, `Parse` succeeds, and every chunk that it returns holds at least one
-- character and at most 4000.
pub parse-IsBounded :
    (content : Text)
    → (chunks : List Text) × (parse (ok content) ≡ ok chunks)
      × All (IsBounded default_max_chunk_chars) chunks
unfolding parse
parse-IsBounded content = (
  chunk_sections (split_markdown_sections content),
  refl,
  chunk_sections-IsBounded _ (sections-HasText content),
)
