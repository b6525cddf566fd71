-- ===== src/Markdown/Chunks.antt =====
-- `splitLongChunk` of internal/parser/md.go: the pieces, their lengths and what they spell.
use go_drive_etl.Common.{
  ℕ, zero, suc, ◌+◌, ◌-◌, ◌≤◌, ◌<◌, ◌≡◌, sym, inl, inr, List, [], ◌∷◌, ◌++◌, map, append-nil, arith,
  ltb, leb, if◌then◌else◌, Bool-cases, ltb→lt, length, take, drop, concat, length-take, length-drop,
  take-append-drop, drop-drop, take_all, drop_all, All, All-append, Text, refl, true, refl, ap,
}
use go_drive_etl.Markdown.{
  to_rune, rune_loop, split_long_chunk, chunk_sections, default_max_chunk_chars,
}

-- The slice that one round appends, from the offset on, with the rest behind it.
slice_then_drop :
    (max_chars start : ℕ) (runes : Text)
    → start < length runes
    → take
          ((if ltb (length runes) (start + max_chars) then length runes else start + max_chars)
            - start)
          (drop start runes)
        ++ drop (start + max_chars) runes
      ≡ drop start runes
slice_then_drop m s runes h = elim (Bool-cases (ltb (length runes) (s + m))) [
  | inl beyond ↦
      rw (beyond, take_all (length runes - s) (drop s runes) (omega (arith, length-drop s runes)))
        (rw (drop_all (s + m) runes (ground arith)) (append-nil _))
  | inr within ↦
      rw (within, drop-drop s m runes)
        (let e : (s + m) - s ≡ m = omega arith in rw e (take-append-drop m (drop s runes)))
]

-- With fuel for the rest of the runes, the loop returns pieces that spell it.
pub concat-rune_loop :
    (fuel max_chars start : ℕ) (runes : Text)
    → 0 < max_chars
    → length runes - start ≤ fuel
    → concat (rune_loop fuel max_chars start runes) ≡ drop start runes
unfolding rune_loop
concat-rune_loop zero m s runes pos enough = sym (drop_all s runes (omega arith))
concat-rune_loop (suc fuel) m s runes pos enough = elim (Bool-cases (ltb s (length runes))) [
  | inl more ↦
      rw
        (
          more,
          concat-rune_loop fuel m (s + m) runes pos (omega (arith, ltb→lt s (length runes) more)),
        )
        (slice_then_drop m s runes (ltb→lt s (length runes) more))
  | inr done ↦ rw done (sym (drop_all s runes (ground arith)))
]

abbrev pub IsBounded : ℕ → Text → Type 0
IsBounded max_chars chunk = (0 < length chunk) × (length chunk ≤ max_chars)

slice-IsBounded :
    (max_chars start : ℕ) (runes : Text)
    → 0 < max_chars
    → start < length runes
    → IsBounded max_chars (
        take
          ((if ltb (length runes) (start + max_chars) then length runes else start + max_chars)
            - start)
          (drop start runes))
slice-IsBounded m s runes pos h =
    let end = if ltb (length runes) (s + m) then length runes else s + m in
    ground (arith, length-take (end - s) (drop s runes), length-drop s runes)

rune_loop-IsBounded :
    (fuel max_chars start : ℕ) (runes : Text)
    → 0 < max_chars
    → All (IsBounded max_chars) (rune_loop fuel max_chars start runes)
unfolding rune_loop
rune_loop-IsBounded zero m s runes pos = tt
rune_loop-IsBounded (suc fuel) m s runes pos = elim (Bool-cases (ltb s (length runes))) [
  | inl more ↦ rw more (
    slice-IsBounded m s runes pos (ltb→lt s (length runes) more),
    rune_loop-IsBounded fuel m (s + m) runes pos,
  )
  | inr done ↦ rw done tt
]

-- What the pieces spell.
pub concat-split_long_chunk :
    (content : Text) (max_chars : ℕ)
    → 0 < max_chars
    → concat (split_long_chunk content max_chars)
      ≡ (if leb (length content) max_chars then content else map to_rune content)
unfolding split_long_chunk
concat-split_long_chunk content m pos = elim (Bool-cases (leb (length content) m)) [
  | inl fits ↦ rw fits (append-nil content)
  | inr long ↦
      rw long (
        concat-rune_loop (length (map to_rune content)) m 0 (map to_rune content) pos (omega arith))
]

-- Each piece but the last has exactly the given number of runes, and the last has some, and at most
-- that number.
abbrev pub IsSliced : ℕ → List Text → Type 0
IsSliced max_chars [] = Unit
IsSliced max_chars (piece ∷ []) = IsBounded max_chars piece
IsSliced max_chars (piece ∷ next ∷ pieces) =
    (length piece ≡ max_chars) × IsSliced max_chars (next ∷ pieces)

IsSliced-cons :
    (max_chars : ℕ) (piece : Text) (pieces : List Text)
    → IsBounded max_chars piece
    → (0 < length pieces → length piece ≡ max_chars)
    → IsSliced max_chars pieces
    → IsSliced max_chars (piece ∷ pieces)
IsSliced-cons m piece [] bounded full rest = bounded
IsSliced-cons m piece (next ∷ pieces) bounded full rest = (full (omega arith), rest)

rune_loop-done :
    (fuel max_chars start : ℕ) (runes : Text)
    → length runes ≤ start
    → rune_loop fuel max_chars start runes ≡ []
unfolding rune_loop
rune_loop-done zero m s runes h = refl
rune_loop-done (suc fuel) m s runes h = ground arith

rune_loop-IsSliced :
    (fuel max_chars start : ℕ) (runes : Text)
    → 0 < max_chars
    → IsSliced max_chars (rune_loop fuel max_chars start runes)
unfolding rune_loop
rune_loop-IsSliced zero m s runes pos = tt
rune_loop-IsSliced (suc fuel) m s runes pos = elim (Bool-cases (ltb s (length runes))) [
  | inl more ↦ rw more (
      IsSliced-cons m _ (rune_loop fuel m (s + m) runes)
        (slice-IsBounded m s runes pos (ltb→lt s (length runes) more)) (full_slice more)
        (rune_loop-IsSliced fuel m (s + m) runes pos))
  | inr done ↦ rw done tt
]
  where
    full_slice :
        ltb s (length runes) ≡ true
        → 0 < length (rune_loop fuel m (s + m) runes)
        → length
            (take ((if ltb (length runes) (s + m) then length runes else s + m) - s) (drop s runes))
          ≡ m
    full_slice more some_piece = elim (Bool-cases (ltb (s + m) (length runes))) [
      | inl inside ↦
          let end = if ltb (length runes) (s + m) then length runes else s + m in
          ground (arith, length-take (end - s) (drop s runes), length-drop s runes)
      | inr outside ↦
          absurd (omega (arith, ap length (rune_loop-done fuel m (s + m) runes (ground arith))))
    ]

-- A section that fits is its only piece, unchanged. The pieces of a longer one spell its runes in
-- order, nothing lost and nothing added; each but the last has exactly the greatest length, and the
-- last is not empty and no longer than that.
pub split_long_chunk-IsSliced :
    (content : Text) (max_chars : ℕ)
    → 0 < max_chars
    → (length content ≤ max_chars → split_long_chunk content max_chars ≡ content ∷ [])
      × (max_chars < length content
          → (concat (split_long_chunk content max_chars) ≡ map to_rune content)
            × IsSliced max_chars (split_long_chunk content max_chars))
unfolding split_long_chunk
split_long_chunk-IsSliced content m pos = elim (Bool-cases (leb (length content) m)) [
  | inl fits ↦ rw fits ((λ h. refl), (λ h. absurd (ground arith)))
  | inr long ↦ rw long (
    (λ h. absurd (ground arith)),
    (λ h. (
      concat-rune_loop (length (map to_rune content)) m 0 (map to_rune content) pos (omega arith),
      rune_loop-IsSliced (length (map to_rune content)) m 0 (map to_rune content) pos,
    )),
  )
]

pub split_long_chunk-IsBounded :
    (content : Text) (max_chars : ℕ)
    → 0 < max_chars
    → 0 < length content
    → All (IsBounded max_chars) (split_long_chunk content max_chars)
unfolding split_long_chunk
split_long_chunk-IsBounded content m pos some_text = elim (Bool-cases (leb (length content) m)) [
  | inl fits ↦ rw fits ((some_text, ground arith), tt)
  | inr long ↦
      rw long (rune_loop-IsBounded (length (map to_rune content)) m 0 (map to_rune content) pos)
]

pub chunk_sections-IsBounded :
    (sections : List Text)
    → All (λ section. 0 < length section) sections
    → All (IsBounded default_max_chunk_chars) (chunk_sections sections)
unfolding chunk_sections
chunk_sections-IsBounded [] h = tt
chunk_sections-IsBounded (section ∷ sections) (some_text, rest) =
    All-append _ _ _ (split_long_chunk-IsBounded section 4000 (omega arith) some_text)
      (chunk_sections-IsBounded sections rest)
