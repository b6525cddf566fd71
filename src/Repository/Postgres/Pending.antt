-- ===== src/Repository/Postgres/Pending.antt =====
-- `ListPending` of internal/repository/file_repository.go: which rows it returns.
use go_drive_etl.Common.{
  none, some, [], ◌∷◌, codes, inl, inr, ◌≡◌, if◌then◌else◌, text_eq, text_eq_iff, Bool-cases,
  Option, ◌∙◌, Error, List, ◌++◌, append-nil, Option-cases, append_assoc, refl, sym, All, ok,
}
use mathlib.Core.Path.{subst}
use mathlib.Core.List.Permᴰ
use mathlib.Core.List.{Permᴰ}
use go_drive_etl.Domain.{File}
use go_drive_etl.Repository.{or_else, result_of}
use go_drive_etl.Repository.Postgres.{Table, select_pending, list_pending, scan_rows, after_rows}

-- The first of the errors that reading the rows meets, and then the one at their end.
abbrev pub first_scan : (File → Option Error) → Table → Option Error → Option Error
first_scan scan [] last = last
first_scan scan (row ∷ rows) last = or_else (scan row) (first_scan scan rows last)

after_scan_rows :
    (scan : File → Option Error) (rows_err : Option Error) (rows : Table) (acc : List File)
    → after_rows rows_err (scan_rows scan rows acc)
      ≡ result_of (first_scan scan rows rows_err) (acc ++ rows)
unfolding scan_rows
after_scan_rows scan none [] acc = rw append-nil
after_scan_rows scan (some e) [] acc = refl
after_scan_rows scan rows_err (row ∷ rows) acc = elim (Option-cases (scan row)) [
  | inl e ↦
      rw (scan_rows, e) (after_scan_rows scan rows_err rows (acc ++ row ∷ []) ∙ rw append_assoc)
  | inr (x, e) ↦ rw (scan_rows, e)
]

list_pending-arranged :
    (arrange : Table → Table) (query : Option Error) (scan : File → Option Error)
    (rows_err : Option Error) (t : Table)
    → list_pending arrange query scan rows_err t
      ≡ result_of
          (or_else query (first_scan scan (arrange (select_pending t)) rows_err))
          (arrange (select_pending t))
unfolding list_pending
list_pending-arranged arrange none scan rows_err t =
    after_scan_rows scan rows_err (arrange (select_pending t)) []
list_pending-arranged arrange (some e) scan rows_err t = refl

-- What the call lists, if it returns no error, is what the server gives for the statement.
pub list_pending-ok :
    (arrange : Table → Table) (query : Option Error) (scan : File → Option Error)
    (rows_err : Option Error) (t : Table) (files : List File)
    → list_pending arrange query scan rows_err t ≡ ok files
    → arrange (select_pending t) ≡ files
list_pending-ok arrange query scan rows_err t files h =
    of_result (or_else query (first_scan scan (arrange (select_pending t)) rows_err))
      (sym (list_pending-arranged arrange query scan rows_err t) ∙ h)
  where
    of_result :
        (o : Option Error)
        → result_of o (arrange (select_pending t)) ≡ ok files
        → arrange (select_pending t) ≡ files
    of_result none e = cc
    of_result (some x) e = cc

abbrev pub IsPending : File → Type 0
IsPending f = f.sync_status ≡ codes "pending"

-- The rows of the table that the statement leaves out.
others : Table → Table
others [] = []
others (row ∷ rows) =
    if text_eq row.sync_status (codes "pending") then others rows else row ∷ others rows

select_pending-IsPending : (t : Table) → All IsPending (select_pending t)
unfolding select_pending
select_pending-IsPending [] = tt
select_pending-IsPending (row ∷ rows) =
    elim (Bool-cases (text_eq row.sync_status (codes "pending"))) [
      | inl pending ↦
          rw pending (
            (text_eq_iff row.sync_status (codes "pending")).0 pending,
            select_pending-IsPending rows,
          )
      | inr settled ↦ rw settled (select_pending-IsPending rows)
    ]

others-not-IsPending : (t : Table) → All (λ f. ¬ (IsPending f)) (others t)
unfolding others
others-not-IsPending [] = tt
others-not-IsPending (row ∷ rows) = elim (Bool-cases (text_eq row.sync_status (codes "pending"))) [
  | inl pending ↦ rw pending (others-not-IsPending rows)
  | inr settled ↦ rw settled (
    (λ e. cc (settled, (text_eq_iff row.sync_status (codes "pending")).1 e)),
    others-not-IsPending rows,
  )
]

-- The statement splits the table.
append-others : (t : Table) → Permᴰ (select_pending t ++ others t) t
unfolding select_pending others
append-others [] = Permᴰ.nil
append-others (row ∷ rows) = elim (Bool-cases (text_eq row.sync_status (codes "pending"))) [
  | inl pending ↦ rw pending (Permᴰ.cons refl (append-others rows))
  | inr settled ↦ rw settled (
      Permᴰ.trans (Permᴰ.middle row (select_pending rows) (others rows))
        (Permᴰ.cons refl (append-others rows)))
]

All-perm : (P : File → Type 0) {l₁ l₂ : List File} → Permᴰ l₁ l₂ → All P l₂ → All P l₁
All-perm P Permᴰ.nil h = tt
All-perm P (Permᴰ.cons e p) (hb, h) = (subst P (sym e) hb, All-perm P p h)
All-perm P (Permᴰ.swap e d) (ha, (hb, h)) = (subst P (sym e) hb, (subst P (sym d) ha, h))
All-perm P (Permᴰ.trans p q) h = All-perm P p (All-perm P q h)

-- Where the server gives the rows of a statement in some order, the call returns the first of the
-- errors of the statement, of the scans of the rows and of their end; and if there is none, it
-- returns the files of the table that are pending, each row of them once and no others.
pub list_pending-rows :
    (arrange : Table → Table) (query : Option Error) (scan : File → Option Error)
    (rows_err : Option Error) (t : Table)
    → ((rows : Table) → Permᴰ (arrange rows) rows)
    → (files : List File) × (settled : List File) × Permᴰ (files ++ settled) t
      × All IsPending files
      × All (λ f. ¬ (IsPending f)) settled
      × (list_pending arrange query scan rows_err t
          ≡ result_of (or_else query (first_scan scan files rows_err)) files)
list_pending-rows arrange query scan rows_err t h =
    let given = h (select_pending t) in
    (
      arrange (select_pending t),
      others t,
      Permᴰ.trans (Permᴰ.append_right (others t) given) (append-others t),
      All-perm IsPending given (select_pending-IsPending t),
      others-not-IsPending t,
      list_pending-arranged arrange query scan rows_err t,
    )
