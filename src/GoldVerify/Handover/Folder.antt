-- ===== src/GoldVerify/Handover/Folder.antt =====
-- The files of a name in a folder, in whatever order they are listed.
use go_drive_etl.Common.{
  ℕ, false, [], ◌∷◌, ◌++◌, Text, List, ◌≡◌, refl, sym, ap, ◌∙◌, arith, if◌then◌else◌, text_eq,
  text_eq_iff, map, ◌+◌, ◌≤◌, inl, inr, Bool-cases,
}
use mathlib.Core.List.{Permᴰ}
use go_drive_etl.GoldReport.{csv_name}
use go_drive_etl.GoldVerify.{Ids, count_files}
use go_drive_etl.GoldVerify.Handover.{Stored, file_of, IsIn, count_stored}

abbrev one_of : Text → Stored → ℕ
one_of name f = if text_eq f.name name then 1 else 0

pub count_stored-perm :
    (name : Text) {s t : List Stored} → Permᴰ s t → count_stored name s ≡ count_stored name t
unfolding count_stored
count_stored-perm name Permᴰ.nil = refl
count_stored-perm name (Permᴰ.cons e d) = cc (e, count_stored-perm name d)
count_stored-perm name (Permᴰ.swap e d) = omega (arith, ap (one_of name) e, ap (one_of name) d)
count_stored-perm name (Permᴰ.trans d e) = count_stored-perm name d ∙ count_stored-perm name e

pub IsIn-perm : (f : Stored) {s t : List Stored} → Permᴰ s t → IsIn f s → IsIn f t
unfolding IsIn
IsIn-perm f Permᴰ.nil h = h
IsIn-perm f (Permᴰ.cons e d) (inl h) = inl (h ∙ e)
IsIn-perm f (Permᴰ.cons e d) (inr h) = inr (IsIn-perm f d h)
IsIn-perm f (Permᴰ.swap e d) (inl h) = inr (inl (h ∙ e))
IsIn-perm f (Permᴰ.swap e d) (inr (inl h)) = inl (h ∙ d)
IsIn-perm f (Permᴰ.swap e d) (inr (inr h)) = inr (inr h)
IsIn-perm f (Permᴰ.trans d e) h = IsIn-perm f e (IsIn-perm f d h)

pub IsIn-middle :
    (before : List Stored) (f : Stored) (after : List Stored) → IsIn f (before ++ f ∷ after)
unfolding IsIn
IsIn-middle [] f after = inl refl
IsIn-middle (g ∷ before) f after = inr (IsIn-middle before f after)

pub count_stored-IsIn :
    (name : Text) (s : List Stored) (f : Stored)
    → IsIn f s
    → f.name ≡ name
    → 1 ≤ count_stored name s
unfolding IsIn count_stored
count_stored-IsIn name [] f h e = absurd h
count_stored-IsIn name (g ∷ s) f (inl h) e =
    let same : g.name ≡ name = ap (λ (k : Stored). k.name) (sym h) ∙ e in
    rw ((text_eq_iff g.name name).1 same) (omega arith)
count_stored-IsIn name (g ∷ s) f (inr h) e =
    let more = count_stored-IsIn name s f h e in omega arith

-- Where there is one file of the name, there is no other.
pub IsIn-unique :
    (name : Text) (s : List Stored) (f g : Stored)
    → count_stored name s ≤ 1
    → IsIn f s
    → f.name ≡ name
    → IsIn g s
    → g.name ≡ name
    → f ≡ g
unfolding IsIn count_stored
IsIn-unique name [] f g c h e h' e' = absurd h
IsIn-unique name (k ∷ s) f g c (inl h) e (inl h') e' = h ∙ sym h'
IsIn-unique name (k ∷ s) f g c (inl h) e (inr h') e' =
    let same = (text_eq_iff k.name name).1 (ap (λ (x : Stored). x.name) (sym h) ∙ e) in
    let one : one_of name k ≡ 1 = rw same refl in
    absurd (omega (arith, one, count_stored-IsIn name s g h' e'))
IsIn-unique name (k ∷ s) f g c (inr h) e (inl h') e' =
    let same = (text_eq_iff k.name name).1 (ap (λ (x : Stored). x.name) (sym h') ∙ e') in
    let one : one_of name k ≡ 1 = rw same refl in
    absurd (omega (arith, one, count_stored-IsIn name s f h e))
IsIn-unique name (k ∷ s) f g c (inr h) e (inr h') e' =
    IsIn-unique name s f g (omega arith) h e h' e'

-- A folder around its one file of the name.
pub record Around (name : Text) (s : List Stored) : Type 0 where
  pub before : List Stored
  pub file : Stored
  pub after : List Stored
  pub split : s ≡ before ++ file ∷ after
  pub named : file.name ≡ name
  pub no_others : count_stored name (before ++ after) ≡ 0

pub around : (name : Text) (s : List Stored) → count_stored name s ≡ 1 → Around name s
unfolding count_stored
around name [] h = absurd (omega arith)
around name (f ∷ s) h = elim (Bool-cases (text_eq f.name name)) [
  | inl e ↦ record {
    before = [];
    file = f;
    after = s;
    split = refl;
    named = (text_eq_iff f.name name).0 e;
    no_others = ground arith;
  }
  | inr e ↦
      let rest = around name s (ground arith) in
      record {
        before = f ∷ rest.before;
        file = rest.file;
        after = rest.after;
        split = ap (λ t. f ∷ t) rest.split;
        named = rest.named;
        no_others = ap (λ (n : ℕ). one_of name f + n) rest.no_others ∙ rw e refl;
      }
]

module _ (md5 : Text → Text) (table : Text) where
  count_files-none :
      (s : List Stored) (n : ℕ) (ids : Ids)
      → count_stored (csv_name table) s ≡ 0
      → count_files table (map (file_of md5) s) n ids ≡ (n, ids)
  unfolding count_stored count_files
  count_files-none [] n ids h = refl
  count_files-none (f ∷ s) n ids h = ground (arith, count_files-none s n ids)

  pub count_files-one :
      (s : List Stored) (n : ℕ) (ids : Ids) (f : Stored)
      → count_stored (csv_name table) s ≡ 1
      → IsIn f s
      → f.name ≡ csv_name table
      → count_files table (map (file_of md5) s) n ids ≡ (n + 1, (table, f.id) ∷ ids)
  unfolding count_stored count_files IsIn
  count_files-one [] n ids f h m e = absurd m
  count_files-one (g ∷ s) n ids f h m e = elim (Bool-cases (text_eq g.name (csv_name table))) [
    | inl same ↦
        let own : f ≡ g =
          IsIn-unique (csv_name table) (g ∷ s) f g (omega (arith, h)) m e (inl refl)
            ((text_eq_iff g.name (csv_name table)).0 same) in
        rw (count_files, same)
          (count_files-none s (n + 1) ((table, g.id) ∷ ids) (ground arith)
            ∙ ap (λ (k : Stored). (n + 1, (table, k.id) ∷ ids)) (sym own))
    | inr other ↦
        rw (count_files, other) (count_files-one s n ids f (ground arith) (in_rest other m) e)
  ]
    where
      in_rest : text_eq g.name (csv_name table) ≡ false → IsIn f (g ∷ s) → IsIn f s
      in_rest other (inl k) = absurd (
          cc (
            other,
            (text_eq_iff g.name (csv_name table)).1 (ap (λ (x : Stored). x.name) (sym k) ∙ e),
          ))
      in_rest other (inr k) = k
