-- ===== src/Drive/Listing.antt =====
-- What `ListFiles` and the query literals of internal/drive/client.go come to.
use go_drive_etl.Common.{
  ==_iff, append-nil, append_assoc, ◌∙◌, Bool-cases, ℕ, zero, suc, refl, none, some, true, false,
  [], ◌∷◌, ok, Text, arith, inl, inr, ◌≡◌, Bool, List, Result, All, Option, is_empty, length,
  if◌then◌else◌, ◌++◌, ◌==◌, ◌≤◌, codes, text_eq, ◌≢◌, codes, text_eq, ◌≢◌, text_eq_iff,
  text_eq_iff,
}
use mathlib.Core.Option
use go_drive_etl.Services.{DriveFile}
use go_drive_etl.Drive.{
  Page, list_files, drive_query_literal, list_loop, list_query, without_folders,
}

-- The pages that a service gives from a token on, to the one with no further token.
pub data Pages (serve : Text → Result Page) : Text → List Page → Type 0 where
  last :
      {token : Text} (page : Page)
      → serve token ≡ ok page
      → is_empty page.next_page_token ≡ true
      → Pages serve token (page ∷ [])
  next :
      {token : Text} {pages : List Page} (page : Page)
      → serve token ≡ ok page
      → is_empty page.next_page_token ≡ false
      → Pages serve page.next_page_token pages
      → Pages serve token (page ∷ pages)

abbrev files_of_pages : List Page → List DriveFile
files_of_pages [] = []
files_of_pages (page ∷ pages) = without_folders page.files ++ files_of_pages pages

list_loop-Pages :
    (serve : Text → Result Page) {token : Text} {pages : List Page} (fuel : ℕ)
    (files : List DriveFile)
    → Pages serve token pages
    → length pages ≤ fuel
    → list_loop serve fuel token files ≡ some (ok (files ++ files_of_pages pages))
unfolding list_loop
list_loop-Pages serve zero files (last page e stop) h = absurd (omega arith)
list_loop-Pages serve (suc fuel) files (last page e stop) h = rw (list_loop, e, stop, append-nil)
list_loop-Pages serve zero files (next page e more rest) h = absurd (omega arith)
list_loop-Pages serve (suc fuel) files (next page e more rest) h =
    rw (list_loop, e, more)
      (list_loop-Pages serve fuel (files ++ without_folders page.files) rest (omega arith)
        ∙ rw append_assoc)

-- All files of the pages, in their order.
abbrev pub listed_on : List Page → List DriveFile
listed_on [] = []
listed_on (page ∷ pages) = page.files ++ listed_on pages

abbrev pub folder_type : Text
folder_type = codes "application/vnd.google-apps.folder"

-- The second list is the first without its folders.
pub data NoFolders : List DriveFile → List DriveFile → Type 0 where
  nothing : NoFolders [] []
  kept :
      {all files : List DriveFile} (file : DriveFile)
      → file.mime_type ≢ folder_type
      → NoFolders all files
      → NoFolders (file ∷ all) (file ∷ files)
  left_out :
      {all files : List DriveFile} (folder : DriveFile)
      → folder.mime_type ≡ folder_type
      → NoFolders all files
      → NoFolders (folder ∷ all) files

without_folders-append :
    (files : List DriveFile) {all rest : List DriveFile}
    → NoFolders all rest
    → NoFolders (files ++ all) (without_folders files ++ rest)
unfolding without_folders
without_folders-append [] h = h
without_folders-append (file ∷ files) h = elim (Bool-cases (text_eq file.mime_type folder_type)) [
  | inl same ↦ rw same (
      left_out file ((text_eq_iff file.mime_type folder_type).0 same)
        (without_folders-append files h))
  | inr other ↦ rw other (
      kept file (λ e. cc (other, (text_eq_iff file.mime_type folder_type).1 e))
        (without_folders-append files h))
]

files_of_pages-NoFolders : (pages : List Page) → NoFolders (listed_on pages) (files_of_pages pages)
files_of_pages-NoFolders [] = nothing
files_of_pages-NoFolders (page ∷ pages) =
    without_folders-append page.files (files_of_pages-NoFolders pages)

-- Where the service's pages come to an end, the list ends with the last of them, if the fuel is at
-- least their number, and holds the files of all pages in order, those with the MIME type of a
-- folder left out and no others.
pub list_files-NoFolders :
    (service : Text → Text → Result Page) (folder : Text) {pages : List Page} (fuel : ℕ)
    → Pages (service (list_query folder)) [] pages
    → length pages ≤ fuel
    → (files : List DriveFile) × (list_files service fuel folder ≡ some (ok files))
      × NoFolders (listed_on pages) files
unfolding list_files
list_files-NoFolders service folder {pages} fuel p h = (
  files_of_pages pages,
  list_loop-Pages (service (list_query folder)) fuel [] p h,
  files_of_pages-NoFolders pages,
)

-- How a quoted literal of a Drive query is read: a backslash makes the next character plain, and
-- the literal ends at a quote. The value and what follows the quote are returned.
abbrev pub read_literal : Bool → Text → Option (Text × Text)
read_literal escaped [] = none
read_literal true (c ∷ s) = Option.map (λ p. (c ∷ p.0, p.1)) (read_literal false s)
read_literal false (c ∷ s) =
    if c == b'\\'
    then read_literal true s
    else if c == b'\''
    then some ([], s)
    else Option.map (λ p. (c ∷ p.0, p.1)) (read_literal false s)

-- A value without backslashes is read back from the query as it is, quotes included, and the query
-- goes on behind it.
pub read_literal-drive_query_literal :
    (value rest : Text)
    → All (λ c. (c == b'\\') ≡ false) value
    → read_literal false (drive_query_literal value ++ b'\'' ∷ rest) ≡ some (value, rest)
unfolding drive_query_literal
read_literal-drive_query_literal [] rest h = refl
read_literal-drive_query_literal (c ∷ value) rest (hc, h) = elim (Bool-cases (c == b'\'')) [
  | inl quote ↦
      let e : c ≡ b'\'' = (==_iff c b'\'').0 quote in
      rw e (rw (read_literal-drive_query_literal value rest h))
  | inr other ↦ rw other (rw (hc, other, read_literal-drive_query_literal value rest h))
]
