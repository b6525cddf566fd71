-- ===== src/Drive.antt =====
-- internal/drive/client.go: the calls of the Drive API. A page of a list is what the service
-- returns for a query and a page token; the service is an argument.
pub mod Listing
mod Tests
use go_drive_etl.Common.{
  ℕ, zero, suc, none, some, true, false, [], ◌∷◌, ok, err, Text, codes, Error, List, Option, Result,
  if◌then◌else◌, ◌++◌, is_empty, message, not, text_eq, ◌==◌, ◌&&◌,
}
use go_drive_etl.Services.{DriveFile}

abbrev pub folder_mime_type : Text
folder_mime_type = codes "application/vnd.google-apps.folder"

-- The credentials of `NewClient`: the user's token, or the default ones.
pub data Credentials : Type 0 where
  user_token : Text → Text → Text → Credentials
  default_credentials : Credentials

unfoldable pub credentials : (Text → Text) → Credentials
credentials getenv =
    let client_id = getenv (codes "GOOGLE_CLIENT_ID") in
    let client_secret = getenv (codes "GOOGLE_CLIENT_SECRET") in
    let refresh_token = getenv (codes "GOOGLE_REFRESH_TOKEN") in
    if not (is_empty client_id) && not (is_empty client_secret) && not (is_empty refresh_token)
    then user_token client_id client_secret refresh_token
    else default_credentials

-- `NewClient`; the argument makes the service.
unfoldable pub new_client : {S : Type 0} → (Credentials → Result S) → (Text → Text) → Result S
unfolding credentials
new_client new_service getenv = elim (new_service (credentials getenv)) [
  | err e ↦ err e
  | ok svc ↦ ok svc
]

-- `strings.ReplaceAll(value, "'", "\\'")`.
unfoldable pub drive_query_literal : Text → Text
drive_query_literal [] = []
drive_query_literal (c ∷ s) =
    let rest = drive_query_literal s in if c == b'\'' then b'\\' ∷ b'\'' ∷ rest else c ∷ rest

-- The query of `UpsertFile`.
unfoldable pub upsert_query : Text → Text → Text
upsert_query folder name =
    codes "'"
    ++ (drive_query_literal folder
        ++ (codes "' in parents and name = '"
            ++ (drive_query_literal name ++ codes "' and trashed = false")))

-- The query of `ListFiles`.
unfoldable pub list_query : Text → Text
list_query folder =
    let rest = codes "trashed = false and mimeType != '" ++ (folder_mime_type ++ codes "'") in
    if is_empty folder then rest else codes "'" ++ (folder ++ (codes "' in parents and " ++ rest))

pub record Page : Type 0 where
  pub files : List DriveFile
  pub next_page_token : Text

unfoldable pub without_folders : List DriveFile → List DriveFile
without_folders [] = []
without_folders (file ∷ files) =
    let rest = without_folders files in
    if text_eq file.mime_type folder_mime_type then rest else file ∷ rest

-- The loop of `ListFiles` from a page token on, with the files so far. The fuel counts the pages;
-- `none` means that it ran out.
unfoldable pub list_loop :
    (Text → Result Page) → ℕ → Text → List DriveFile → Option (Result (List DriveFile))
list_loop serve zero token files = none
list_loop serve (suc fuel) token files = elim (serve token) [
  | err e ↦ some (err e)
  | ok page ↦
      let more = files ++ without_folders page.files in
      if is_empty page.next_page_token
      then some (ok more)
      else list_loop serve fuel page.next_page_token more
]

unfoldable pub list_files :
    (Text → Text → Result Page) → ℕ → Text → Option (Result (List DriveFile))
unfolding list_loop without_folders
list_files service fuel folder = list_loop (service (list_query folder)) fuel [] []

-- What `UpsertFile` asks the service to do.
pub data Write : Type 0 where
  update : Text → Text → Text → Text → Write
  create : Text → Text → Text → Text → Write

abbrev pub folder_id_required : Error
folder_id_required = message (codes "export folder ID is required")

-- From the list of the files of that name on; `write` is the service's answer to a write.
unfoldable pub upsert_found :
    (Write → Option Error)
    → Text
    → Text
    → Text
    → Text
    → Result (List DriveFile)
    → Option Write × Option Error
upsert_found write folder name mime_type content (err e) = (none, some e)
upsert_found write folder name mime_type content (ok []) =
    let w = create folder name mime_type content in (some w, write w)
upsert_found write folder name mime_type content (ok (file ∷ files)) =
    let w = update file.id name mime_type content in (some w, write w)

-- `UpsertFile`: the write that it makes, if it makes one, and its error.
unfoldable pub upsert_file :
    (Text → Result (List DriveFile))
    → (Write → Option Error)
    → Text
    → Text
    → Text
    → Text
    → Option Write × Option Error
unfolding upsert_found
upsert_file search_files write folder name mime_type content =
    if is_empty folder
    then (none, some folder_id_required)
    else upsert_found write folder name mime_type content (search_files (upsert_query folder name))

-- `io.ReadAll(res.Body)` behind the answer of the service; the outcome of the reading is that of
-- the body.
abbrev pub read_body : Result (Result Text) → Result Text
read_body (err e) = err e
read_body (ok body) = body

-- `DownloadFile`; `get` is the service's answer for a file.
unfoldable pub download_file : (Text → Result (Result Text)) → Text → Result Text
download_file get file_id = read_body (get file_id)

-- `DownloadGoogleWorkspaceFile`; `export` is the service's answer for a file in a format.
unfoldable pub download_google_workspace_file :
    (Text → Text → Result (Result Text)) → Text → Text → Result Text
download_google_workspace_file export file_id mime_type = read_body (export file_id mime_type)
