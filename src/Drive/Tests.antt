-- ===== src/Drive/Tests.antt =====
-- The theorems on the Drive calls at a list of two pages and at a name with a quote.
use go_drive_etl.Drive.{
  new_client, credentials, default_credentials, Page, drive_query_literal, list_files, list_query,
}
use go_drive_etl.Common.{
  some, [], ◌∷◌, codes, ok, false, Text, Result, ◌++◌, ◌≡◌, refl, arith, is_empty, if◌then◌else◌,
  List,
}
use go_drive_etl.Services.{DriveFile}
use go_drive_etl.Drive.Listing.{
  Pages, last, next, NoFolders, listed_on, read_literal, list_files-NoFolders,
  read_literal-drive_query_literal,
}

abbrev note : DriveFile
note = record {
  id = codes "1";
  name = codes "a.md";
  mime_type = codes "text/markdown";
  md5_checksum = [];
}

abbrev first_page : Page
first_page = record { files = note ∷ []; next_page_token = codes "p2" }

abbrev subfolder : DriveFile
subfolder = record note { mime_type = codes "application/vnd.google-apps.folder" }

abbrev last_page : Page
last_page = record { files = note ∷ subfolder ∷ []; next_page_token = [] }

abbrev service : Text → Text → Result Page
service query token = if is_empty token then ok first_page else ok last_page

two-Pages : Pages (service (list_query (codes "root"))) [] (first_page ∷ last_page ∷ [])
two-Pages = next first_page refl refl (last last_page refl refl)

list_files-NoFolders_example :
    (files : List DriveFile) × (list_files service 5 (codes "root") ≡ some (ok files))
    × NoFolders (listed_on (first_page ∷ last_page ∷ [])) files
list_files-NoFolders_example = list_files-NoFolders service (codes "root") 5 two-Pages (omega arith)

read_literal-drive_query_literal_example :
    read_literal false (drive_query_literal (codes "it's") ++ b'\'' ∷ codes " and")
    ≡ some (codes "it's", codes " and")
read_literal-drive_query_literal_example =
    read_literal-drive_query_literal (codes "it's") (codes " and")
      (refl, (refl, (refl, (refl, tt))))

-- Without the three variables, the client has the default credentials.
new_client_default : new_client (λ c. ok c) (λ name. []) ≡ ok default_credentials
unfolding new_client credentials
new_client_default = refl
