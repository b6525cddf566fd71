-- ===== src/Markdown/Tests.antt =====
-- Tests of the model of internal/parser/md.go, and its theorems at documents.
use go_drive_etl.Common.{
  refl, [], ◌∷◌, ◌≡◌, arith, Text, List, codes, concat, ok, split, All, map, length, join,
  trim_space, trim_left, trim_right, ◌≤◌, ◌<◌, ◌<◌,
}
use go_drive_etl.Common.TextLaws.{ink}
use go_drive_etl.Markdown.{
  parse, is_heading, split_long_chunk, replace_crlf, newline, section_loop, default_max_chunk_chars,
  flush, split_markdown_sections, to_rune,
}
use go_drive_etl.Markdown.Chunks.{IsBounded, split_long_chunk-IsSliced, IsSliced}
use go_drive_etl.Markdown.Sections.{
  IsPartition, section_texts, split_markdown_sections-IsPartition, parse-IsBounded,
}
use go_drive_etl.Markdown.Ink.{ink-parse}

abbrev note : Text
note = codes "intro\r\n# One\r\ntext\n\n## Two\n#no heading\n   \n"

parse-note :
    parse (ok note) ≡ ok (codes "intro" ∷ codes "# One\ntext" ∷ codes "## Two\n#no heading" ∷ [])
unfolding parse is_heading replace_crlf section_loop flush split_long_chunk split join trim_space
    trim_left trim_right
parse-note = refl

parse_blank : parse (ok (codes " \n\t\n")) ≡ ok []
unfolding parse is_heading replace_crlf section_loop flush split_long_chunk split join trim_space
    trim_left trim_right
parse_blank = refl

long_chunk : split_long_chunk (codes "abcdefg") 3 ≡ codes "abc" ∷ codes "def" ∷ codes "g" ∷ []
unfolding split_long_chunk
long_chunk = refl

split_long_chunk-IsSliced_example :
    (length (codes "abcdefg") ≤ 3 → split_long_chunk (codes "abcdefg") 3 ≡ codes "abcdefg" ∷ [])
    × (3 < length (codes "abcdefg")
        → (concat (split_long_chunk (codes "abcdefg") 3) ≡ map to_rune (codes "abcdefg"))
          × IsSliced 3 (split_long_chunk (codes "abcdefg") 3))
split_long_chunk-IsSliced_example = split_long_chunk-IsSliced (codes "abcdefg") 3 (omega arith)

ink-parse_example :
    (chunks : List Text) × (parse (ok note) ≡ ok chunks)
    × (ink (map to_rune (concat chunks)) ≡ ink (map to_rune note))
ink-parse_example = ink-parse note

parse-IsBounded_example :
    (chunks : List Text) × (parse (ok note) ≡ ok chunks)
    × All (IsBounded default_max_chunk_chars) chunks
parse-IsBounded_example = parse-IsBounded note

split_markdown_sections-IsPartition_example :
    (first : List Text) × (groups : List (List Text)) × IsPartition
      (split newline (replace_crlf note))
      first
      groups
    × (split_markdown_sections note ≡ section_texts (first ∷ groups))
split_markdown_sections-IsPartition_example = split_markdown_sections-IsPartition note
