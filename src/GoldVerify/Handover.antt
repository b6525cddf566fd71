-- ===== src/GoldVerify/Handover.antt =====
-- A folder of Google Drive as internal/drive/client.go lets internal/goldreport and
-- internal/goldverify see it: the client over the API of Drive, and what the API documents of the
-- files of a folder.
pub mod Folder
pub mod Api
pub mod Uploads
pub mod Rounds
pub mod Positions
pub mod Tables
mod Tests
use go_drive_etl.Common.{
  ◌++◌, ℕ, none, some, true, false, [], ◌∷◌, ok, err, Text, Bool, Error, List, Option, Result, ◌≡◌,
  ◌≢◌, if◌then◌else◌, text_eq, map, ◌+◌, ◌≤◌, ◌⊎◌, codes, message, length, All,
}
use mathlib.Core.List.{Permᴰ}
use go_drive_etl.Services.{DriveClient, DriveFile, Source}
use go_drive_etl.Drive.{Page, Write, update, create, list_query, upsert_query, folder_mime_type}
use go_drive_etl.Drive
use go_drive_etl.Drive.Listing.{Pages, listed_on}
use go_drive_etl.GoldReport.{csv_name}

pub record Stored : Type 0 where
  pub id : Text
  pub name : Text
  pub mime_type : Text
  pub content : Text

abbrev pub file_of : (Text → Text) → Stored → DriveFile
file_of md5 f = record {
  id = f.id;
  name = f.name;
  mime_type = f.mime_type;
  md5_checksum = md5 f.content;
}

pub IsIn : Stored → List Stored → Type 0
IsIn f [] = ⊥
IsIn f (g ∷ s) = (f ≡ g) ⊎ IsIn f s

unfoldable pub count_stored : Text → List Stored → ℕ
count_stored name [] = 0
count_stored name (f ∷ s) = (if text_eq f.name name then 1 else 0) + count_stored name s

abbrev pub daily : Text
daily = codes "mart_ingestion_daily"

abbrev pub latest : Text
latest = codes "mart_file_latest"

-- The tables that are exported.
abbrev pub IsGold : Text → Type 0
IsGold table = (table ≡ daily) ⊎ (table ≡ latest)

-- The API of Drive over a state of the outside world, as far as the client calls it: a page of the
-- list for a query and a page token, the files that a query finds, the body of a file, and a write.
-- The calls that read change nothing.
pub record DriveApi (W : Type 0) : Type 0 where
  pub page : Text → Text → W → Result Page
  pub search : Text → W → Result (List DriveFile)
  pub get : Text → W → Result (Result Text)
  pub write : Write → W → Option Error × W

abbrev pub endless : Error
endless = message (codes "the list does not end")

abbrev pub within_fuel : Option (Result (List DriveFile)) → Result (List DriveFile)
within_fuel none = err endless
within_fuel (some files) = files

module _ {W : Type 0} (api : DriveApi W) where
  -- What is left behind the write that `UpsertFile` asks for.
  abbrev pub written : Option Write × Option Error → W → Option Error × W
  written (none, e) w = (e, w)
  written (some x, e) w = (e, (api.write x w).1)

  -- `Client` of internal/drive/client.go with its calls, over the API; the fuel is that of
  -- `list_files`.
  abbrev pub client : ℕ → DriveClient W
  client fuel = record {
    list_files = λ folder w.
        (within_fuel (Drive.list_files (λ query token. api.page query token w) fuel folder), w);
    download_file = λ id w. (Drive.download_file (λ key. api.get key w) id, w);
    upsert_file = λ folder name mime_type content w.
        written
          (Drive.upsert_file (λ query. api.search query w) (λ x. (api.write x w).0) folder name
            mime_type content)
          w;
  }

abbrev pub csv_file : Text → Text → Text → Stored
csv_file id name content = record {
  id = id;
  name = name;
  mime_type = codes "text/csv";
  content = content;
}

-- What the API does with a folder without faults; `stored` shows the files that are in it, in the
-- order of the list, and `fresh` is the ID of the next new one. The pages of the list end within
-- the fuel and hold all files; the query for the name of a delivered file finds none where there is
-- none and the one where there is one; a body is that of the file; and a write succeeds: `create`
-- adds a file under a new ID, and `update` gives the file of the ID its name, type and content, and
-- neither changes another file. The order of the list may be another after a write.
pub record ApiLaws {W : Type 0} (api : DriveApi W) (fuel : ℕ) (md5 : Text → Text) (folder : Text)
    (stored : W → List Stored) (fresh : W → Text) : Type 0 where
  pub pages : W → List Page
  pub pages_end : (w : W) → Pages (λ token. api.page (list_query folder) token w) [] (pages w)
  pub pages_fit : (w : W) → length (pages w) ≤ fuel
  pub pages_hold : (w : W) → listed_on (pages w) ≡ map (file_of md5) (stored w)
  pub no_folders : (w : W) → All (λ f. f.mime_type ≢ folder_mime_type) (stored w)
  pub get_ok : (f : Stored) (w : W) → IsIn f (stored w) → api.get f.id w ≡ ok (ok f.content)
  pub search_none :
      (table : Text) (w : W)
      → IsGold table
      → count_stored (csv_name table) (stored w) ≡ 0
      → api.search (upsert_query folder (csv_name table)) w ≡ ok []
  pub search_one :
      (table : Text) (f : Stored) (w : W)
      → IsGold table
      → count_stored (csv_name table) (stored w) ≡ 1
      → IsIn f (stored w)
      → f.name ≡ csv_name table
      → api.search (upsert_query folder (csv_name table)) w ≡ ok (file_of md5 f ∷ [])
  pub create_ok :
      (name content : Text) (w : W)
      → (api.write (create folder name (codes "text/csv") content) w).0 ≡ none
  pub stored-create :
      (name content : Text) (w : W)
      → Permᴰ
          (stored (api.write (create folder name (codes "text/csv") content) w).1)
          (csv_file (fresh w) name content ∷ stored w)
  pub update_ok :
      (f : Stored) (name content : Text) (w : W)
      → IsIn f (stored w)
      → (api.write (update f.id name (codes "text/csv") content) w).0 ≡ none
  pub stored-update :
      (before : List Stored) (f : Stored) (after : List Stored) (name content : Text) (w : W)
      → stored w ≡ before ++ f ∷ after
      → Permᴰ
          (stored (api.write (update f.id name (codes "text/csv") content) w).1)
          (csv_file f.id name content ∷ before ++ after)

-- Tables that do not change: an export of one of the two gives the same text at any time.
pub record SourceLaws {W : Type 0} (source : Source W) (csv : Text → Text) : Type 0 where
  pub export_ok :
      (table : Text) (w : W) → IsGold table → source.export_table_csv table w ≡ (ok (csv table), w)
