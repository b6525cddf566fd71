-- ===== src/Markdown/Ink.antt =====
-- `Parse` of internal/parser/md.go keeps what a reader sees: the units of the document that are no
-- space.
use go_drive_etl.Common.{
  ℕ, ◌≡◌, refl, sym, ap, ◌∙◌, inl, inr, true, ◌&&◌, List, [], ◌∷◌, ◌++◌, map, append-nil,
  append_assoc, map-append, arith, leb, ◌==◌, Bool-cases, length, concat, concat-append, Text,
  is_empty, is_space, ok, split, join, trim_space,
}
use go_drive_etl.Common.TextLaws.{ink, ink-append, ink-trim_space, ink-split, ink-join}
use go_drive_etl.Markdown.{
  newline, carriage_return, replace_crlf, is_heading, has_lines, flush, section_loop,
  split_markdown_sections, to_rune, split_long_chunk, chunk_sections, parse,
}
use go_drive_etl.Markdown.Chunks.{concat-split_long_chunk}

ink-replace_crlf : (s : Text) → ink (replace_crlf s) ≡ ink s
unfolding replace_crlf ink
ink-replace_crlf [] = refl
ink-replace_crlf (c ∷ []) = refl
ink-replace_crlf (c ∷ d ∷ s) = elim (Bool-cases (c == carriage_return && d == newline)) [
  | inl both ↦ ground (arith, ink-replace_crlf s)
  | inr other ↦ rw (other, ink-replace_crlf (d ∷ s))
]

-- A group of lines that nothing remains of showed nothing.
ink-section : (current : List Text) → ink (trim_space (join newline current)) ≡ ink (concat current)
ink-section current = ink-trim_space (join newline current) ∙ ink-join newline current refl

ink_of_empty : (t : Text) → is_empty t ≡ true → ink t ≡ []
unfolding ink
ink_of_empty [] h = refl
ink_of_empty (c ∷ t) h = cc

ink-flush :
    (sections current : List Text)
    → ink (concat (flush sections current)) ≡ ink (concat sections) ++ ink (concat current)
unfolding flush
ink-flush sections current =
    let section = trim_space (join newline current) in
    elim (Bool-cases (is_empty section)) [
      | inl e ↦
          let nothing : ink (concat current) ≡ [] =
            sym (ink-section current) ∙ ink_of_empty section e in
          rw (e, nothing, append-nil)
      | inr e ↦
          rw (e, concat-append, ink-append, append-nil)
            (ap (λ (t : Text). ink (concat sections) ++ t) (ink-section current))
    ]

ink-section_loop :
    (lines sections current : List Text)
    → ink (concat (section_loop lines sections current))
      ≡ ink (concat sections) ++ ink (concat current) ++ ink (concat lines)
unfolding section_loop ink
ink-section_loop [] sections current =
    ink-flush sections current ∙ sym (append-nil (ink (concat sections) ++ ink (concat current)))
ink-section_loop (line ∷ lines) sections current =
    elim (Bool-cases (is_heading line && has_lines current)) [
      | inl cut ↦ rw cut (
          simp (
            ink-section_loop lines (flush sections current) (line ∷ []),
            ink-flush,
            ink-append,
            append-nil,
            append_assoc,
          ))
      | inr go ↦ rw go (
          simp (
            ink-section_loop lines sections (current ++ line ∷ []),
            concat-append,
            ink-append,
            append-nil,
            append_assoc,
          ))
    ]

ink-split_markdown_sections :
    (content : Text) → ink (concat (split_markdown_sections content)) ≡ ink content
unfolding split_markdown_sections ink
ink-split_markdown_sections content =
    ink-section_loop (split newline (replace_crlf content)) [] []
    ∙ ink-split newline (replace_crlf content) refl
    ∙ ink-replace_crlf content

-- What the conversion to runes does to a text, seen through `ink`.
is_space-to_rune : (u : ℕ) → is_space (to_rune u) ≡ is_space u
is_space-to_rune u = ground arith

ink-map-to_rune : (s : Text) → ink (map to_rune s) ≡ map to_rune (ink s)
unfolding ink
ink-map-to_rune [] = refl
ink-map-to_rune (c ∷ s) = elim (Bool-cases (is_space c)) [
  | inl e ↦ rw (is_space-to_rune c, e, ink-map-to_rune s)
  | inr e ↦ rw (is_space-to_rune c, e, ink-map-to_rune s)
]

to_rune_idem : (u : ℕ) → to_rune (to_rune u) ≡ to_rune u
to_rune_idem u = ground arith

map-to_rune_idem : (s : Text) → map to_rune (map to_rune s) ≡ map to_rune s
map-to_rune_idem [] = refl
map-to_rune_idem (c ∷ s) = cc (to_rune_idem c, map-to_rune_idem s)

runes-split_long_chunk :
    (section : Text) → map to_rune (concat (split_long_chunk section 4000)) ≡ map to_rune section
runes-split_long_chunk section =
    rw (concat-split_long_chunk section 4000 (omega arith))
      (elim (Bool-cases (leb (length section) 4000)) [
        | inl fits ↦ rw fits
        | inr long ↦ rw long (map-to_rune_idem section)
      ])

runes-chunk_sections :
    (sections : List Text)
    → map to_rune (concat (chunk_sections sections)) ≡ map to_rune (concat sections)
unfolding chunk_sections
runes-chunk_sections [] = refl
runes-chunk_sections (section ∷ sections) =
    simp (concat-append, map-append, runes-split_long_chunk section, runes-chunk_sections sections)

-- Whatever the document, `Parse` succeeds, and the chunks read one behind the other show the runes
-- of the document in order, none lost, added or moved, when white space is left out of both. A byte
-- that starts no encoding reads as U+FFFD.
pub ink-parse :
    (content : Text)
    → (chunks : List Text) × (parse (ok content) ≡ ok chunks)
      × (ink (map to_rune (concat chunks)) ≡ ink (map to_rune content))
unfolding parse
ink-parse content =
    let sections = split_markdown_sections content in
    (
      chunk_sections sections,
      refl,
      ap ink (runes-chunk_sections sections)
          ∙ ink-map-to_rune (concat sections)
          ∙ ap (map to_rune) (ink-split_markdown_sections content)
          ∙ sym (ink-map-to_rune content),
    )
