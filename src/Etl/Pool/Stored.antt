-- ===== src/Etl/Pool/Stored.antt =====
-- The table of internal/repository/file_repository.go as the calls of internal/etl/worker_pool.go
-- see it: what an update leaves of it, and which of its rows are listed.
use go_drive_etl.Common.{
  ℕ, none, some, [], ◌∷◌, Text, List, Option, ◌≡◌, Bool-cases, inl, inr, arith, refl, sym, ◌∙◌, ap,
  text_eq, text_eq_iff, text_eq_refl, ◌≤◌, Bool,
}
use go_drive_etl.Domain.{File, SyncStatus, status_pending}
use mathlib.Core.List.{Permᴰ}
use go_drive_etl.Repository.{status_set}
use go_drive_etl.Repository.Postgres
use go_drive_etl.Repository.Postgres.{Table, find, select_pending}
use go_drive_etl.Repository.Postgres.Rows.{IsKeyed, update_status-IsKeyed}
use go_drive_etl.Repository.Agreement.{postgres-update_status}
use go_drive_etl.Etl.Program.{
  Op, Reply, update_status, download, download_workspace, context_err, insert_rows, wait,
  read_clock, add_failed, add_failed_update,
}
use go_drive_etl.Etl.Worker.Statuses.{set_to, track}
use go_drive_etl.Etl.Pool.Balance.{one, count}
use go_drive_etl.Etl.Pool.Followers.{has_id}

abbrev pub status_of : Option File → Option SyncStatus
status_of none = none
status_of (some f) = some f.sync_status

-- What a call leaves of the table at a time. The reply of `UpdateStatus` is the error of its
-- statement.
abbrev pub stored : ℕ → (o : Op) → Reply o → Table → Table
stored now (update_status id status) r t = (Postgres.update_status r now id status t).1
stored now (download id) r t = t
stored now (download_workspace id mime_type) r t = t
stored now context_err r t = t
stored now (insert_rows table rows) r t = t
stored now (wait delay) r t = t
stored now read_clock r t = t
stored now add_failed r t = t
stored now add_failed_update r t = t

pub stored-IsKeyed :
    (now : ℕ) (o : Op) (r : Reply o) (t : Table) → IsKeyed t → IsKeyed (stored now o r t)
stored-IsKeyed now (update_status id status) r t v = update_status-IsKeyed r now id status t v
stored-IsKeyed now (download id) r t v = v
stored-IsKeyed now (download_workspace id mime_type) r t v = v
stored-IsKeyed now context_err r t v = v
stored-IsKeyed now (insert_rows table rows) r t v = v
stored-IsKeyed now (wait delay) r t v = v
stored-IsKeyed now read_clock r t v = v
stored-IsKeyed now add_failed r t v = v
stored-IsKeyed now add_failed_update r t v = v

pub status_of-set :
    (now : ℕ) (status : SyncStatus) (entry : Option File)
    → status_of (status_set now status entry) ≡ set_to status (status_of entry)
unfolding status_set
status_of-set now status none = refl
status_of-set now status (some f) = refl

-- The table shows the status that the replies say.
pub stored-track :
    (now : ℕ) (o : Op) (r : Reply o) (t : Table) (key : Text)
    → IsKeyed t
    → status_of (find (stored now o r t) key) ≡ track key (status_of (find t key)) o r
stored-track now (update_status id status) none t key v =
    ap status_of (postgres-update_status now id status t key v)
    ∙ elim (Bool-cases (text_eq id key)) [
      | inl same ↦ rw same (status_of-set now status (find t key))
      | inr other ↦ rw other refl
    ]
stored-track now (update_status id status) (some e) t key v = unfold Postgres.update_status in refl
stored-track now (download id) r t key v = refl
stored-track now (download_workspace id mime_type) r t key v = refl
stored-track now context_err r t key v = refl
stored-track now (insert_rows table rows) r t key v = refl
stored-track now (wait delay) r t key v = refl
stored-track now read_clock r t key v = refl
stored-track now add_failed r t key v = refl
stored-track now add_failed_update r t key v = refl

abbrev pub pending_one : Option File → ℕ
pending_one none = 0
pending_one (some f) = one (text_eq f.sync_status status_pending)

-- The pending rows of a table with unique IDs have an ID once, if its row is pending.
pub count-select_pending :
    (t : Table) (key : Text)
    → IsKeyed t
    → count (has_id key) (select_pending t) ≡ pending_one (find t key)
unfolding count select_pending find
count-select_pending [] key v = refl
count-select_pending (row ∷ rows) key (new, v) = elim (Bool-cases (text_eq row.drive_file_id key)) [
  | inl same ↦
      let e = (text_eq_iff row.drive_file_id key).0 same in
      let nobody : count (has_id key) (select_pending rows) ≡ 0 =
        count-select_pending rows key v ∙ rw (ap (find rows) (sym e) ∙ new) refl in
      rw same (elim (Bool-cases (text_eq row.sync_status status_pending)) [
        | inl pending ↦ rw pending (omega (arith, nobody, ap one same))
        | inr settled ↦ rw settled nobody
      ])
  | inr other ↦ rw other (elim (Bool-cases (text_eq row.sync_status status_pending)) [
    | inl pending ↦ rw pending (omega (arith, count-select_pending rows key v, ap one other))
    | inr settled ↦ rw settled (count-select_pending rows key v)
  ])
]

pub find-nothing : (t : Table) → ((id : Text) → find t id ≡ none) → t ≡ []
unfolding find
find-nothing [] h = refl
find-nothing (row ∷ rows) h = ground (arith, h row.drive_file_id, text_eq_refl row.drive_file_id)

-- The order of files does not matter for how many there are of a kind.
pub count-perm : (p : File → Bool) {l₁ l₂ : List File} → Permᴰ l₁ l₂ → count p l₁ ≡ count p l₂
unfolding count
count-perm p Permᴰ.nil = refl
count-perm p (Permᴰ.cons e d) = cc (e, count-perm p d)
count-perm p (Permᴰ.swap e d) = omega (arith, ap (λ f. one (p f)) e, ap (λ f. one (p f)) d)
count-perm p (Permᴰ.trans d e) = count-perm p d ∙ count-perm p e

pub pending_one-most : (entry : Option File) → pending_one entry ≤ 1
pending_one-most none = omega arith
pending_one-most (some f) = ground arith
