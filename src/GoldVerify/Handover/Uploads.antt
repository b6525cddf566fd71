-- ===== src/GoldVerify/Handover/Uploads.antt =====
-- What `Export` of internal/goldreport/export.go leaves in a folder without faults.
use go_drive_etl.Common.{
  none, false, [], ◌∷◌, Text, codes, List, ◌≡◌, refl, sym, ap, ◌∙◌, arith, text_eq, text_eq_iff,
  ◌≤◌, is_empty, inl, inr, ℕ, ◌+◌, if◌then◌else◌,
}
use mathlib.Core.List.Permᴰ
use go_drive_etl.Services.{DriveClient, Source}
use go_drive_etl.GoldReport.{csv_name, export_reports, export_loop}
use go_drive_etl.GoldVerify.Handover.{
  Stored, IsIn, count_stored, daily, latest, IsGold, DriveApi, ApiLaws, SourceLaws, client,
}
use go_drive_etl.GoldVerify.Handover.Folder.{
  count_stored-perm, count_stored-IsIn, IsIn-perm, IsIn-unique,
}
use go_drive_etl.GoldVerify.Handover.Api.{Uploaded, upload-Uploaded}

-- A folder with at most one file of each name.
abbrev pub IsTidy : List Stored → Type 0
IsTidy s = (count_stored (csv_name daily) s ≤ 1) × (count_stored (csv_name latest) s ≤ 1)

-- The one file of a table.
pub record Held (s : List Stored) (table content : Text) (f : Stored) : Type 0 where
  pub counted : count_stored (csv_name table) s ≡ 1
  pub held : IsIn f s
  pub named : f.name ≡ csv_name table
  pub exact : f.content ≡ content

-- The file has the ID that the one of its name had.
abbrev pub KeepsId : Text → List Stored → Stored → Type 0
KeepsId table s f = (g : Stored) → IsIn g s → g.name ≡ csv_name table → f.id ≡ g.id

module _ {before after : List Stored} {table content : Text}
    (u : Uploaded before after table content) where
  Uploaded-Held : Held after table content u.file
  unfolding count_stored IsIn
  Uploaded-Held = record {
    counted =
        count_stored-perm (csv_name table) u.result
        ∙ rw ((text_eq_iff u.file.name (csv_name table)).1 u.named, u.no_others) refl;
    held = IsIn-perm u.file (Permᴰ.symm u.result) (inl refl);
    named = u.named;
    exact = u.exact;
  }

  Uploaded-KeepsId : count_stored (csv_name table) before ≤ 1 → KeepsId table before u.file
  unfolding count_stored IsIn
  Uploaded-KeepsId h g held named = elim u.came_from [
    | inl same ↦ absurd (
        omega (
          arith,
          count_stored-IsIn (csv_name table) before g held named,
          count_stored-perm (csv_name table) same,
          u.no_others,
        ))
    | inr (old, old_named, kept, same) ↦
        kept
        ∙ ap (λ (f : Stored). f.id)
            (IsIn-unique (csv_name table) before old g h
              (IsIn-perm old (Permᴰ.symm same) (inl refl)) old_named held named)
  ]

  -- Files of another name.
  module _ (other : Text) (apart : text_eq (csv_name table) (csv_name other) ≡ false) where
    uncounted :
        (f : Stored) (rest : List Stored)
        → f.name ≡ csv_name table
        → count_stored (csv_name other) (f ∷ rest) ≡ count_stored (csv_name other) rest
    unfolding count_stored
    uncounted f rest e =
        ap
          (λ (name : Text).
            (if text_eq name (csv_name other) then 1 else 0) + count_stored (csv_name other) rest)
          e
        ∙ rw apart (omega arith)

    Uploaded-count_stored :
        count_stored (csv_name other) after ≡ count_stored (csv_name other) before
    Uploaded-count_stored =
        count_stored-perm (csv_name other) u.result
        ∙ uncounted u.file u.others u.named
        ∙ elim u.came_from [
          | inl same ↦ sym (count_stored-perm (csv_name other) same)
          | inr (old, old_named, kept, same) ↦
              sym (count_stored-perm (csv_name other) same ∙ uncounted old u.others old_named)
        ]

    among_others :
        (old g : Stored)
        → old.name ≡ csv_name table
        → g.name ≡ csv_name other
        → IsIn g (old ∷ u.others)
        → IsIn g u.others
    unfolding IsIn
    among_others old g e e' (inl same) =
        let name : csv_name table ≡ csv_name other =
          sym e ∙ ap (λ (f : Stored). f.name) (sym same) ∙ e' in
        absurd (cc (apart, (text_eq_iff (csv_name table) (csv_name other)).1 name))
    among_others old g e e' (inr m) = m

    Uploaded-IsIn : (g : Stored) → g.name ≡ csv_name other → IsIn g before → IsIn g after
    unfolding IsIn
    Uploaded-IsIn g named m = IsIn-perm g (Permᴰ.symm u.result) (
        inr (elim u.came_from [
          | inl same ↦ IsIn-perm g same m
          | inr (old, old_named, kept, same) ↦
              among_others old g old_named named (IsIn-perm g same m)
        ]))

module _ {W : Type 0} (source : Source W) (api : DriveApi W) (fuel : ℕ) (md5 : Text → Text)
    (folder : Text) (stored : W → List Stored) (fresh : W → Text) (csv : Text → Text)
    (laws : ApiLaws api fuel md5 folder stored fresh) (tables : SourceLaws source csv)
    (named : is_empty folder ≡ false) where
  abbrev pub drive : DriveClient W
  drive = client api fuel

  abbrev pub upload : Text → W → W
  upload table w = (drive.upsert_file folder (csv_name table) (codes "text/csv") (csv table) w).1

  abbrev pub export_state : W → W
  export_state w = upload latest (upload daily w)

  uploaded :
      (table : Text) (w : W)
      → IsGold table
      → count_stored (csv_name table) (stored w) ≤ 1
      → ((drive.upsert_file folder (csv_name table) (codes "text/csv") (csv table) w).0 ≡ none)
        × Uploaded (stored w) (stored (upload table w)) table (csv table)
  uploaded table w gold h =
      upload-Uploaded api fuel md5 folder stored fresh laws table (csv table) w gold named h

  export_loop-upload :
      (table : Text) (rest : List Text) (w : W)
      → IsGold table
      → count_stored (csv_name table) (stored w) ≤ 1
      → export_loop drive source folder (table ∷ rest) w
        ≡ export_loop drive source folder rest (upload table w)
  unfolding export_loop
  export_loop-upload table rest w gold h = rw (
    export_loop,
    ap (λ x. x.0) (tables.export_ok table w gold),
    ap (λ x. x.1) (tables.export_ok table w gold),
    (uploaded table w gold h).0,
    ap (λ x. x.1) (tables.export_ok table w gold),
  )

  module _ (w : W) (tidy : IsTidy (stored w)) where
    first : Uploaded (stored w) (stored (upload daily w)) daily (csv daily)
    first = (uploaded daily w (inl refl) tidy.0).1

    still : count_stored (csv_name latest) (stored (upload daily w)) ≤ 1
    still = omega (arith, tidy.1, Uploaded-count_stored first latest refl)

    second : Uploaded (stored (upload daily w)) (stored (export_state w)) latest (csv latest)
    second = (uploaded latest (upload daily w) (inr refl) still).1

    pub export_reports-after : export_reports drive source folder w ≡ (none, export_state w)
    unfolding export_reports export_loop
    export_reports-after = rw named (
        export_loop-upload daily (latest ∷ []) w (inl refl) tidy.0
        ∙ export_loop-upload latest [] (upload daily w) (inr refl) still)

    -- What an export leaves: both files, which keep the IDs that they had.
    pub after-Held :
        (d : Stored) × (l : Stored) × Held (stored (export_state w)) daily (csv daily) d
        × Held (stored (export_state w)) latest (csv latest) l
        × KeepsId daily (stored w) d
        × KeepsId latest (stored w) l
    after-Held =
        let d = Uploaded-Held first in
        (
          first.file,
          second.file,
          record {
            counted = Uploaded-count_stored second daily refl ∙ d.counted;
            held = Uploaded-IsIn second daily refl first.file d.named d.held;
            named = d.named;
            exact = d.exact;
          },
          Uploaded-Held second,
          Uploaded-KeepsId first tidy.0,
          λ g m e. Uploaded-KeepsId second still g (Uploaded-IsIn first latest refl g e m) e,
        )
