-- ===== src/Common/TextLaws.antt =====
-- Laws of the functions on Go strings: a split joined again, and the units that are no space, which
-- splitting at a space, joining and trimming leave alone.
use go_drive_etl.Common.{
  ℕ, ◌≡◌, refl, sym, ap, ◌∙◌, true, List, [], ◌∷◌, ◌++◌, append-nil, ◌==◌, if◌then◌else◌,
  Bool-cases, inl, inr, ==_iff, concat, Text, onto_first, is_space, keep_unless, All, Bool, false,
  is_empty, arith, split, join, trim_left, trim_right, trim_space,
}

-- The units that are no space.
unfoldable pub ink : Text → Text
ink [] = []
ink (c ∷ s) = let rest = ink s in if is_space c then rest else c ∷ rest

pub ink-append : (s t : Text) → ink (s ++ t) ≡ ink s ++ ink t
unfolding ink
ink-append [] t = refl
ink-append (c ∷ s) t = elim (Bool-cases (is_space c)) [
  | inl e ↦ rw (e, ink-append s t)
  | inr e ↦ rw (e, ink-append s t)
]

pub ink_space : (c : ℕ) (s : Text) → is_space c ≡ true → ink (c ∷ s) ≡ ink s
unfolding ink
ink_space c s h = rw h

ink-trim_left : (s : Text) → ink (trim_left is_space s) ≡ ink s
unfolding ink trim_left
ink-trim_left [] = refl
ink-trim_left (c ∷ s) = elim (Bool-cases (is_space c)) [
  | inl e ↦ rw (e, ink-trim_left s)
  | inr e ↦ rw e (ap (λ (t : Text). t) (rw e))
]

ink-keep_unless : (c : ℕ) (rest : Text) → ink (keep_unless is_space c rest) ≡ ink (c ∷ rest)
unfolding ink
ink-keep_unless c [] = elim (Bool-cases (is_space c)) [ inl e ↦ rw e | inr e ↦ rw (e, e) ]
ink-keep_unless c (d ∷ rest) = refl

ink-cons : (c : ℕ) (s t : Text) → ink s ≡ ink t → ink (c ∷ s) ≡ ink (c ∷ t)
unfolding ink
ink-cons c s t h = rw h

ink-trim_right : (s : Text) → ink (trim_right is_space s) ≡ ink s
unfolding trim_right
ink-trim_right [] = refl
ink-trim_right (c ∷ s) =
    ink-keep_unless c (trim_right is_space s) ∙ ink-cons c _ _ (ink-trim_right s)

pub ink-trim_space : (s : Text) → ink (trim_space s) ≡ ink s
unfolding trim_space
ink-trim_space s = ink-trim_right (trim_left is_space s) ∙ ink-trim_left s

ink-onto_first : (c : ℕ) (ps : List Text) → ink (concat (onto_first c ps)) ≡ ink (c ∷ concat ps)
ink-onto_first c [] = refl
ink-onto_first c (p ∷ ps) = refl

pub ink-split : (sep : ℕ) (s : Text) → is_space sep ≡ true → ink (concat (split sep s)) ≡ ink s
unfolding split
ink-split sep [] h = refl
ink-split sep (c ∷ s) h = elim (Bool-cases (c == sep)) [
  | inl e ↦
      let same : c ≡ sep = (==_iff c sep).0 e in
      rw e (ink-split sep s h ∙ sym (ink_space c s (rw same h)))
  | inr e ↦ rw e (ink-onto_first c (split sep s) ∙ ink-cons c _ _ (ink-split sep s h))
]

pub ink-join :
    (sep : ℕ) (ps : List Text) → is_space sep ≡ true → ink (join sep ps) ≡ ink (concat ps)
unfolding join
ink-join sep [] h = refl
ink-join sep (p ∷ []) h = rw append-nil
ink-join sep (p ∷ q ∷ ps) h =
    rw (ink-append p (sep ∷ join sep (q ∷ ps)), ink_space sep (join sep (q ∷ ps)) h)
      (rw (ink-join sep (q ∷ ps) h) (sym (ink-append p (concat (q ∷ ps)))))

ink-nil : (s : Text) → is_empty (trim_space s) ≡ true → ink s ≡ []
ink-nil s h = sym (ink-trim_space s) ∙ ap ink (eq_nil (trim_space s) h) ∙ unfold ink in refl
  where
    eq_nil : (t : Text) → is_empty t ≡ true → t ≡ []
    eq_nil [] e = refl
    eq_nil (c ∷ t) e = cc

-- A string that begins with no space is not trimmed away.
pub trim_space_keeps :
    (c : ℕ) (s : Text) → is_space c ≡ false → is_empty (trim_space (c ∷ s)) ≡ false
trim_space_keeps c s h = elim (Bool-cases (is_empty (trim_space (c ∷ s)))) [
  | inl e ↦ unfold ink in cc (ink-nil (c ∷ s) e, h)
  | inr e ↦ e
]

-- And one that is trimmed away begins with a space.
pub is_space-head : (c : ℕ) (s : Text) → is_empty (trim_space (c ∷ s)) ≡ true → is_space c ≡ true
is_space-head c s h = elim (Bool-cases (is_space c)) [
  | inl e ↦ e
  | inr e ↦ cc (trim_space_keeps c s e, h)
]

-- A split cuts off a first part that ends at a separator.
pub split-append :
    (sep : ℕ) (p s : Text)
    → All (λ c. (c == sep) ≡ false) p
    → split sep (p ++ sep ∷ s) ≡ p ∷ split sep s
unfolding split
split-append sep [] s h = let e : (sep == sep) ≡ true = ground arith in rw e
split-append sep (c ∷ p) s (hc, hp) = rw (hc, split-append sep p s hp)

pub split_whole : (sep : ℕ) (p : Text) → All (λ c. (c == sep) ≡ false) p → split sep p ≡ p ∷ []
unfolding split
split_whole sep [] h = refl
split_whole sep (c ∷ p) (hc, hp) = rw (hc, split_whole sep p hp)

module _ (p : ℕ → Bool) where
  -- What stands before a remainder that is kept is kept.
  pub trim_right-append :
      (s : Text) (c : ℕ) (t r : Text) → trim_right p t ≡ c ∷ r → trim_right p (s ++ t) ≡ s ++ c ∷ r
  unfolding trim_right
  trim_right-append [] c t r h = h
  trim_right-append (d ∷ s) c t r h = rw (trim_right-append s c t r h) (keep s)
    where
      keep : (s : Text) → keep_unless p d (s ++ c ∷ r) ≡ d ∷ (s ++ c ∷ r)
      keep [] = refl
      keep (e ∷ s) = refl

  pub trim_right-All : (t : Text) → All (λ c. p c ≡ true) t → trim_right p t ≡ []
  unfolding trim_right
  trim_right-All [] h = refl
  trim_right-All (c ∷ t) (hc, ht) = rw (trim_right-All t ht, hc)

  -- A part in which nothing is to be trimmed, before one in which all is.
  pub trim_right_tail :
      (s t : Text) → All (λ c. p c ≡ false) s → All (λ c. p c ≡ true) t → trim_right p (s ++ t) ≡ s
  unfolding trim_right
  trim_right_tail [] t hs ht = trim_right-All t ht
  trim_right_tail (c ∷ s) t (hc, hs) ht = rw (trim_right_tail s t hs ht) (keep s)
    where
      keep : (s : Text) → keep_unless p c s ≡ c ∷ s
      keep [] = rw hc
      keep (d ∷ s) = refl
