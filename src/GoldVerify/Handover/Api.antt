-- ===== src/GoldVerify/Handover/Api.antt =====
-- What the calls of internal/drive/client.go do to a folder, over the API.
use go_drive_etl.Common.{
  zero, suc, ◌≢◌, ℕ, none, [], ◌∷◌, ◌++◌, ok, Text, codes, List, Option, Error, ◌≡◌, refl, sym, ap,
  ◌∙◌, arith, is_empty, map, ◌≤◌, ◌⊎◌, inl, inr, All, false,
}
use mathlib.Core.Path.{subst}
use mathlib.Core.List.Permᴰ
use mathlib.Core.List.{Permᴰ}
use go_drive_etl.Services.{DriveFile}
use go_drive_etl.Drive.{folder_mime_type, upsert_found, create, update, upsert_query}
use go_drive_etl.Drive
use go_drive_etl.Drive.Listing.{NoFolders, nothing, kept, left_out, list_files-NoFolders}
use go_drive_etl.GoldReport.{csv_name}
use go_drive_etl.GoldVerify.Handover.{
  Stored, file_of, csv_file, IsIn, count_stored, IsGold, DriveApi, ApiLaws, client, within_fuel,
  written,
}
use go_drive_etl.GoldVerify.Handover.Folder.{around, IsIn-middle}

NoFolders-files :
    (md5 : Text → Text) (s : List Stored) {all files : List DriveFile}
    → NoFolders all files
    → all ≡ map (file_of md5) s
    → All (λ f. f.mime_type ≢ folder_mime_type) s
    → files ≡ map (file_of md5) s
NoFolders-files md5 [] nothing e h = refl
NoFolders-files md5 [] (kept file x r) e h = cc
NoFolders-files md5 [] (left_out file x r) e h = cc
NoFolders-files md5 (f ∷ s) nothing e h = cc
NoFolders-files md5 (f ∷ s) (kept {all} {files} file x r) e (hf, h) =
    let rest : all ≡ map (file_of md5) s = cc in cc (NoFolders-files md5 s r rest h)
NoFolders-files md5 (f ∷ s) (left_out {all} {files} file x r) e (hf, h) =
    let same : file ≡ file_of md5 f = cc in
    absurd (hf (ap (λ (k : DriveFile). k.mime_type) (sym same) ∙ x))

-- What an upload does to a folder with at most one file of the name: that file, or a new one, has
-- the content, and all others are as they were.
pub record Uploaded (before after : List Stored) (table content : Text) : Type 0 where
  pub file : Stored
  pub others : List Stored
  pub named : file.name ≡ csv_name table
  pub exact : file.content ≡ content
  pub no_others : count_stored (csv_name table) others ≡ 0
  pub result : Permᴰ after (file ∷ others)
  pub came_from :
      Permᴰ before others
      ⊎ ((old : Stored) × (old.name ≡ csv_name table)
          × (file.id ≡ old.id)
          × Permᴰ before (old ∷ others))

module _ {W : Type 0} (api : DriveApi W) (fuel : ℕ) (md5 : Text → Text) (folder : Text)
    (stored : W → List Stored) (fresh : W → Text)
    (laws : ApiLaws api fuel md5 folder stored fresh) where
  -- `ListFiles` gives the files of the folder.
  pub list_files_ok :
      (w : W) → (client api fuel).list_files folder w ≡ (ok (map (file_of md5) (stored w)), w)
  list_files_ok w =
      let (files, listed, exact) =
        list_files-NoFolders (λ query token. api.page query token w) folder fuel (laws.pages_end w)
          (laws.pages_fit w) in
      ap (λ r. (within_fuel r, w)) listed
      ∙ ap (λ (l : List DriveFile). (ok l, w))
          (NoFolders-files md5 (stored w) exact (laws.pages_hold w) (laws.no_folders w))

  -- `DownloadFile` gives the content of a file of the folder.
  pub download_file_ok :
      (f : Stored) (w : W)
      → IsIn f (stored w)
      → (client api fuel).download_file f.id w ≡ (ok f.content, w)
  unfolding Drive.download_file
  download_file_ok f w m = ap (λ r. (Drive.read_body r, w)) (laws.get_ok f w m)

  module _ (table content : Text) (w : W) (gold : IsGold table)
      (named : is_empty folder ≡ false) where
    abbrev upload : Option Error × W
    upload = (client api fuel).upsert_file folder (csv_name table) (codes "text/csv") content w

    -- What `UpsertFile` does from the result of its search on.
    upload-found :
        (found : List DriveFile)
        → api.search (upsert_query folder (csv_name table)) w ≡ ok found
        → upload
          ≡ written api
              (upsert_found
                (λ x. (api.write x w).0)
                folder
                (csv_name table)
                (codes "text/csv")
                content
                (ok found))
              w
    unfolding Drive.upsert_file
    upload-found found h = rw (named, h) refl

    upload-create :
        count_stored (csv_name table) (stored w) ≡ 0
        → (upload.0 ≡ none) × Uploaded (stored w) (stored upload.1) table content
    upload-create h =
        let made : upload
            ≡ api.write (create folder (csv_name table) (codes "text/csv") content) w =
          upload-found [] (laws.search_none table w gold h) ∙ unfold upsert_found in refl in
        (
          ap (λ (x : Option Error × W). x.0) made ∙ laws.create_ok (csv_name table) content w,
          record {
            file = csv_file (fresh w) (csv_name table) content;
            others = stored w;
            named = refl;
            exact = refl;
            no_others = h;
            result =
                subst
                  (λ (v : W).
                    Permᴰ (stored v) (csv_file (fresh w) (csv_name table) content ∷ stored w))
                  (ap (λ (x : Option Error × W). x.1) (sym made))
                  (laws.stored-create (csv_name table) content w);
            came_from = inl (Permᴰ.refl (stored w));
          },
        )

    upload-update :
        count_stored (csv_name table) (stored w) ≡ 1
        → (upload.0 ≡ none) × Uploaded (stored w) (stored upload.1) table content
    upload-update h =
        let a = around (csv_name table) (stored w) h in
        let old = a.file in
        let held : IsIn old (stored w) =
          subst (λ s. IsIn old s) (sym a.split) (IsIn-middle a.before old a.after) in
        let made : upload
            ≡ api.write (update old.id (csv_name table) (codes "text/csv") content) w =
          upload-found (file_of md5 old ∷ []) (laws.search_one table old w gold h held a.named)
          ∙ unfold upsert_found in refl in
        (
          ap (λ (x : Option Error × W). x.0) made
              ∙ laws.update_ok old (csv_name table) content w held,
          record {
            file = csv_file old.id (csv_name table) content;
            others = a.before ++ a.after;
            named = refl;
            exact = refl;
            no_others = a.no_others;
            result =
                subst
                  (λ (v : W).
                    Permᴰ (stored v)
                      (csv_file old.id (csv_name table) content ∷ a.before ++ a.after))
                  (ap (λ (x : Option Error × W). x.1) (sym made))
                  (laws.stored-update a.before old a.after (csv_name table) content w a.split);
            came_from = inr (
              old,
              a.named,
              refl,
              subst (λ s. Permᴰ s (old ∷ a.before ++ a.after)) (sym a.split)
                  (Permᴰ.middle old a.before a.after),
            );
          },
        )

    -- `UpsertFile` of a delivered table succeeds and replaces the file of its name, which keeps its
    -- ID, or adds one.
    pub upload-Uploaded :
        count_stored (csv_name table) (stored w) ≤ 1
        → (upload.0 ≡ none) × Uploaded (stored w) (stored upload.1) table content
    upload-Uploaded h = by_count (count_stored (csv_name table) (stored w)) refl h
      where
        by_count :
            (n : ℕ)
            → count_stored (csv_name table) (stored w) ≡ n
            → n ≤ 1
            → (upload.0 ≡ none) × Uploaded (stored w) (stored upload.1) table content
        by_count zero e h = upload-create e
        by_count (suc zero) e h = upload-update e
        by_count (suc (suc n)) e h = absurd (omega arith)
