-- ===== src/GoldVerify/Query/Quoting.antt =====
-- The query of internal/goldverify/query.go once its three calls of `strings.ReplaceAll` are done.
use mathlib.Core.Path.{fun_ext, subst}
use go_drive_etl.Common.{
  Bool-cases, ℕ, zero, none, some, true, false, [], ◌∷◌, ok, err, Text, Bool, List, Result, ◌≡◌,
  refl, sym, ap, ◌∙◌, if◌then◌else◌, ◌||◌, ◌++◌, has_prefix, arith, append_assoc, Option-cases, inl,
  inr,
}
use go_drive_etl.GoldVerify.Query.{
  Table, silver_chunks, daily, latest, table_name, dataset_of, path_of, quoted_path, fill,
  quote_table, template, template_end, validate, comparison_sql, replace_from,
}
use go_drive_etl.GoldVerify.Query.Scan.{
  all_names, is_break, no_dots-names, has_prefix-dot, has_prefix-break, NoMatch, NoMatch-append,
  replace_from-NoMatch, replace_from_self, ends-NoMatch, replace_from-no_dots,
}
use go_drive_etl.GoldVerify.Query.Tables.{
  same_table, opens, is_format, template-is_format, table_name-prefix, table_name-names,
  text_eq-longer, eq_of_same_table, same_table_refl, opens-fill,
}
use go_drive_etl.GoldVerify.Query.Names.{not_empty, validate-names}

module _ (project silver gold : Text) (hp : all_names project ≡ true) (hs : all_names silver ≡ true)
    (hg : all_names gold ≡ true) (c : ℕ) (p : Text) (starts : project ≡ c ∷ p) where
  abbrev dataset : Table → Text
  dataset = dataset_of project silver gold

  abbrev path : Table → Text
  path = path_of project silver gold

  abbrev quoted : Table → Text
  quoted = quoted_path project silver gold

  dataset-names : (t : Table) → all_names (dataset t) ≡ true
  dataset-names silver_chunks = hs
  dataset-names daily = hg
  dataset-names latest = hg

  -- A dot begins no match.
  dot-NoMatch : (t : Table) (r : Text) → has_prefix (b'.' ∷ r) (path t) ≡ false
  dot-NoMatch t r = has_prefix-dot [] project r _ refl (no_dots-names project hp) ∙ rw starts

  -- A name behind which a dot, a table's name and a break stand.
  dataset-NoMatch :
      (t : Table) (u a : Text) (z : ℕ) (r : Text)
      → all_names u ≡ true
      → all_names a ≡ true
      → is_break z ≡ true
      → NoMatch (path t) u (b'.' ∷ (a ++ z ∷ r))
  dataset-NoMatch t [] a z r hu ha b = tt
  dataset-NoMatch t (d ∷ u) a z r hu ha b = (
    has_prefix-dot (d ∷ u) project _ _ (no_dots-names (d ∷ u) hu) (no_dots-names project hp)
        ∙ rw
            (has_prefix-break a z r (dataset t) (table_name t) (no_dots-names a ha) b
              (dataset-names t))
            (ground arith),
    dataset-NoMatch t u a z r (ground arith) ha b,
  )

  name-NoMatch :
      (t : Table) (u : Text) (z : ℕ) (r : Text)
      → all_names u ≡ true
      → is_break z ≡ true
      → NoMatch (path t) u (z ∷ r)
  name-NoMatch t [] z r hu b = tt
  name-NoMatch t (d ∷ u) z r hu b = (
    has_prefix-break (d ∷ u) z r project _ (no_dots-names (d ∷ u) hu) b hp,
    name-NoMatch t u z r (ground arith) b,
  )

  -- Behind the first unit of the project no match begins.
  project-NoMatch :
      (t : Table) (x : ℕ) (w v r : Text)
      → project ≡ x ∷ (w ++ v)
      → all_names v ≡ true
      → NoMatch (path t) v (b'.' ∷ r)
  project-NoMatch t x w [] r e h = tt
  project-NoMatch t x w (d ∷ v) r e h = (
    has_prefix-dot (d ∷ v) project r _ (no_dots-names (d ∷ v) h) (no_dots-names project hp)
        ∙ rw e (rw (text_eq-longer x w (d ∷ v))),
    project-NoMatch t x (w ++ d ∷ []) v r (e ∙ rw append_assoc) (ground arith),
  )

  whole-NoMatch :
      (t : Table) (r : Text)
      → has_prefix (project ++ b'.' ∷ r) (path t) ≡ false
      → NoMatch (path t) project (b'.' ∷ r)
  whole-NoMatch t r e =
      subst (λ (u : Text). NoMatch (path t) u (b'.' ∷ r)) (sym starts)
        (
          subst (λ (u : Text). has_prefix (u ++ b'.' ∷ r) (path t) ≡ false) starts e,
          project-NoMatch t c [] p r starts
              (tail_names (subst (λ (u : Text). all_names u ≡ true) starts hp)),
        )
    where
      tail_names : all_names (c ∷ p) ≡ true → all_names p ≡ true
      tail_names h = ground arith

  other_path :
      (t t' : Table) (z : ℕ) (r : Text)
      → same_table t' t ≡ false
      → is_break z ≡ true
      → has_prefix
          (dataset t' ++ b'.' ∷ (table_name t' ++ z ∷ r))
          (dataset t ++ b'.' ∷ table_name t)
        ≡ false
  other_path t t' z r other b =
      has_prefix-dot (dataset t') (dataset t) _ _ (no_dots-names (dataset t') (dataset-names t'))
        (no_dots-names (dataset t) (dataset-names t))
      ∙ rw (table_name-prefix t' t z r b, other) (ground arith)

  -- The path of another table.
  path-NoMatch :
      (t t' : Table) (z : ℕ) (r : Text)
      → same_table t' t ≡ false
      → is_break z ≡ true
      → NoMatch (path t) (path t') (z ∷ r)
  path-NoMatch t t' z r other b =
      NoMatch-append (path t) project (b'.' ∷ (dataset t' ++ b'.' ∷ table_name t')) (z ∷ r)
        (whole-NoMatch t _ (
          has_prefix-dot project project _ _ (no_dots-names project hp) (no_dots-names project hp)
          ∙ rw (append_assoc, other_path t t' z r other b) (ground arith)))
        (
          dot-NoMatch t _,
          NoMatch-append (path t) (dataset t') (b'.' ∷ table_name t') (z ∷ r)
              (dataset-NoMatch t (dataset t') (table_name t') z r (dataset-names t')
                (table_name-names t') b)
              (dot-NoMatch t _, name-NoMatch t (table_name t') z r (table_name-names t') b),
        )

  abbrev write : (Table → Bool) → Table → Text
  write q t = if q t then quoted t else path t

  abbrev mark : Table → (Table → Bool) → Table → Bool
  mark t q t' = same_table t' t || q t'

  abbrev replaced : Table → Text → Text
  replaced t s = replace_from zero (path t) (quoted t) s

  replaced-write :
      (t t' : Table) (q : Table → Bool) (z : ℕ) (r : Text)
      → q t ≡ false
      → is_break z ≡ true
      → replaced t (write q t' ++ z ∷ r) ≡ write (mark t q) t' ++ replaced t (z ∷ r)
  replaced-write t t' q z r fresh b = elim (Bool-cases (same_table t' t)) [
    | inl same ↦
        subst
          (λ (x : Table).
            replaced t (write q x ++ z ∷ r) ≡ write (mark t q) x ++ replaced t (z ∷ r))
          (sym (eq_of_same_table t' t same))
          (rw (fresh, same_table_refl t)
            (replace_from_self (path t) (quoted t) (z ∷ r) _ c
              (ap (λ (u : Text). u ++ b'.' ∷ (dataset t ++ b'.' ∷ table_name t)) starts)))
    | inr other ↦ elim (Bool-cases (q t')) [
      | inl old ↦
          rw (other, old)
            (replace_from-NoMatch (path t) (quoted t) (quoted t') (z ∷ r) (
              has_prefix-break [] b'`' _ project _ refl refl hp,
              NoMatch-append (path t) (path t') (b'`' ∷ []) (z ∷ r)
                  (path-NoMatch t t' b'`' (z ∷ r) other refl)
                  (has_prefix-break [] b'`' _ project _ refl refl hp, tt),
            ))
      | inr plain ↦
          rw (other, plain)
            (replace_from-NoMatch (path t) (quoted t) (path t') (z ∷ r)
              (path-NoMatch t t' z r other b))
    ]
  ]

  replaced-fill :
      (t : Table) (q : Table → Bool) (rest : List (Text × Table)) (end : Text)
      → q t ≡ false
      → is_format rest end ≡ true
      → replaced t (fill (write q) rest end) ≡ fill (write (mark t q)) rest end
  unfolding fill
  replaced-fill t q [] end fresh f = replace_from-no_dots end project _ (quoted t) f
  replaced-fill t q ((text, t') ∷ rest) end fresh f =
      replace_from-NoMatch (path t) (quoted t) text _
        (ends-NoMatch text _ project _ (ground arith) (ground arith) hp)
      ∙ ap (λ (s : Text). text ++ s)
          (at_break (fill (write q) rest end) (opens-fill (write q) rest end (ground arith))
            ∙ ap (λ (s : Text). write (mark t q) t' ++ s)
                (replaced-fill t q rest end fresh (ground arith)))
    where
      at_break :
          (r : Text)
          → opens r ≡ true
          → replaced t (write q t' ++ r) ≡ write (mark t q) t' ++ replaced t r
      at_break [] h = cc
      at_break (z ∷ r) h = replaced-write t t' q z r fresh h

  all_quoted :
      replaced latest (replaced daily (replaced silver_chunks (fill path template template_end)))
      ≡ fill quoted template template_end
  all_quoted =
      ap (λ (s : Text). replaced latest (replaced daily s))
        (replaced-fill silver_chunks (λ t. false) template template_end refl template-is_format)
      ∙ ap (replaced latest) (replaced-fill daily _ template template_end refl template-is_format)
      ∙ replaced-fill latest _ template template_end refl template-is_format
      ∙ ap (λ (w : Table → Text). fill w template template_end) (fun_ext every)
    where
      every :
          (t : Table)
          → write (mark latest (mark daily (mark silver_chunks (λ t. false)))) t ≡ quoted t
      every silver_chunks = refl
      every daily = refl
      every latest = refl

-- Whether the names are valid: then the query is the format with every table written as its path
-- in backquotes, each one once, and nothing else changed, though the code quotes it by replacing
-- texts; otherwise the error of the validation is returned.
pub comparison_sql-quoted :
    (project silver gold : Text)
    → comparison_sql project silver gold
      ≡ (elim (validate project silver gold) as (λ _. Result Text) [
        | some e ↦ err e
        | none ↦ ok (fill (quoted_path project silver gold) template template_end)
      ])
unfolding comparison_sql
comparison_sql-quoted project silver gold = elim (Option-cases (validate project silver gold)) [
  | inl e ↦ rw (comparison_sql, e) (ap ok (valid project e))
  | inr (x, e) ↦ rw (comparison_sql, e)
]
  where
    valid :
        (project : Text)
        → validate project silver gold ≡ none
        → quote_table project silver gold latest (
            quote_table project silver gold daily (
              quote_table project silver gold silver_chunks
                (fill (path_of project silver gold) template template_end)))
          ≡ fill (quoted_path project silver gold) template template_end
    valid [] e = absurd (not_empty silver gold e)
    valid (c ∷ p) e =
        let (hp, hs, hg) = validate-names (c ∷ p) silver gold e in
        all_quoted (c ∷ p) silver gold hp hs hg c p refl
