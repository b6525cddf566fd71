-- ===== src/Markdown.antt =====
-- internal/parser/md.go: `MarkdownParser.Parse` and the functions that it calls. A loop is a
-- function of the variables that it changes; a Go string is a list of units (Common/Texts).
pub mod Chunks
pub mod Sections
pub mod Ink
mod Tests
use go_drive_etl.Common.{
  ℕ, zero, suc, ◌+◌, ◌-◌, Bool, true, false, ◌&&◌, List, [], ◌∷◌, ◌++◌, map, ltb, leb, ◌==◌,
  if◌then◌else◌, length, take, drop, concat, Text, is_empty, has_prefix, codes, Result, ok, err,
  ◌>>=◌, split, join, trim_space,
}

abbrev pub default_max_chunk_chars : ℕ
default_max_chunk_chars = 4000

abbrev pub newline : ℕ
newline = 10

abbrev pub carriage_return : ℕ
carriage_return = 13

-- `strings.ReplaceAll(content, "\r\n", "\n")`.
unfoldable pub replace_crlf : Text → Text
replace_crlf [] = []
replace_crlf (c ∷ []) = c ∷ []
replace_crlf (c ∷ d ∷ s) =
    let behind_both = replace_crlf s in
    let behind_one = replace_crlf (d ∷ s) in
    if c == carriage_return && d == newline then newline ∷ behind_both else c ∷ behind_one

-- `for level < len(line) && line[level] == '#' { level++ }`, which returns `line[level:]`.
pub skip_hashes : Text → Text
skip_hashes [] = []
skip_hashes (c ∷ line) = let rest = skip_hashes line in if c == b'#' then rest else c ∷ line

pub starts_with_blank : Text → Bool
starts_with_blank [] = false
starts_with_blank (c ∷ line) = c == b' '

unfoldable pub is_heading : Text → Bool
unfolding skip_hashes starts_with_blank
is_heading line =
    if has_prefix line (codes "#") then starts_with_blank (skip_hashes line) else false

abbrev pub has_lines : List Text → Bool
has_lines [] = false
has_lines (line ∷ current) = true

-- `if section := strings.TrimSpace(strings.Join(current, "\n")); section != "" { … }`.
unfoldable pub flush : List Text → List Text → List Text
flush sections current =
    let section = trim_space (join newline current) in
    if is_empty section then sections else sections ++ section ∷ []

-- The loop over the lines, with the code behind it.
unfoldable pub section_loop : List Text → List Text → List Text → List Text
unfolding flush
section_loop [] sections current = flush sections current
section_loop (line ∷ lines) sections current =
    let cut = is_heading line && has_lines current in
    section_loop lines (if cut then flush sections current else sections)
      ((if cut then [] else current) ++ line ∷ [])

pub split_markdown_sections : Text → List Text
unfolding replace_crlf section_loop
split_markdown_sections content = section_loop (split newline (replace_crlf content)) [] []

-- One unit as `[]rune(s)` reads it: a byte that starts no encoding reads as U+FFFD.
abbrev pub to_rune : ℕ → ℕ
to_rune u = if ltb u 0x110000 then u else 0xfffd

-- `for start := 0; start < len(runes); start += maxChars`; the fuel counts the rounds.
pub rune_loop : ℕ → ℕ → ℕ → Text → List Text
rune_loop zero max_chars start runes = []
rune_loop (suc fuel) max_chars start runes =
    let rest = rune_loop fuel max_chars (start + max_chars) runes in
    let end = if ltb (length runes) (start + max_chars) then length runes else start + max_chars in
    if ltb start (length runes) then take (end - start) (drop start runes) ∷ rest else []

unfoldable pub split_long_chunk : Text → ℕ → List Text
unfolding rune_loop
split_long_chunk content max_chars =
    let runes = map to_rune content in
    if leb (length content) max_chars
    then content ∷ []
    else rune_loop (length runes) max_chars 0 runes

pub chunk_sections : List Text → List Text
unfolding split_long_chunk
chunk_sections [] = []
chunk_sections (section ∷ sections) =
    split_long_chunk section default_max_chunk_chars ++ chunk_sections sections

-- `Parse`; its argument is what `io.ReadAll` returned.
unfoldable pub parse : Result Text → Result (List Text)
unfolding split_markdown_sections chunk_sections
parse content = do text ← content; ok (chunk_sections (split_markdown_sections text))
