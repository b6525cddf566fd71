-- ===== src/Repository/Factory.antt =====
-- internal/repository/factory.go: the choice of the backend. What opens a client is an argument,
-- and so is the type of a store.
use go_drive_etl.Common.{
  Text, codes, Result, err, Error, message, text_eq, is_empty, if◌then◌else◌, ◌||◌,
}

-- The message leaves out the value.
abbrev pub unknown_backend : Error
unknown_backend = message (codes "STATE_BACKEND が不正（postgres | firestore | 未設定）")

unfoldable pub new {ℓ} :
    {Store : Type ℓ} → (Text → Text) → (Text → Result Store) → (Text → Result Store) → Result Store
new getenv new_pool new_client =
    let backend = getenv (codes "STATE_BACKEND") in
    if text_eq backend (codes "postgres")
    then new_pool (getenv (codes "POSTGRES_DSN"))
    else if is_empty backend || text_eq backend (codes "firestore")
    then new_client (getenv (codes "GOOGLE_CLOUD_PROJECT"))
    else err unknown_backend
