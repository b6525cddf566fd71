-- ===== src/Etl/Current/Others.antt =====
-- Rows that are appended to the table that internal/etl/worker_pool.go loads, and what the view
-- `chunks_current` of iac/bigquery.tf shows of files to which they do not belong.
use go_drive_etl.Common.{
  ℕ, zero, suc, none, some, ◌∷◌, Text, List, Option, ◌++◌, append-nil, ◌≡◌, refl, arith, ap, ◌∙◌,
  All, All-append,
}
use go_drive_etl.Etl.Current.{
  Chunk, later, pick, deduplicated, version_ingested, versions, latest_version, not_deleted,
  of_version, current,
}
use go_drive_etl.Etl.Current.Best.{
  repeated, deduplicated-append, version_ingested-append, versions-append, IsOther,
  deduplicated-others, version_ingested-others, versions-others,
}
use go_drive_etl.Etl.Current.Latest.{pick-ext}

pub repeated-All :
    (P : Chunk → Type 0) (n : ℕ) (chunks : List Chunk) → All P chunks → All P (repeated n chunks)
repeated-All P zero chunks all = all
repeated-All P (suc n) chunks all =
    All-append P chunks (repeated n chunks) all (repeated-All P n chunks all)

pub repeated-cons :
    (n : ℕ) (chunks : List Chunk)
    → (c : Chunk) × (more : List Chunk) × (chunks ≡ c ∷ more)
    → (c : Chunk) × (more : List Chunk) × (repeated n chunks ≡ c ∷ more)
repeated-cons zero chunks h = h
repeated-cons (suc n) chunks (c, more, e) =
    (c, more ++ repeated n chunks, ap (λ x. x ++ repeated n chunks) e)

-- Rows of other files change nothing.
pub latest_version-others :
    (old more : List Chunk) (file : Text)
    → All (IsOther file) more
    → latest_version (old ++ more) file ≡ latest_version old file
unfolding latest_version
latest_version-others old more file all =
    ap (pick (version_ingested (old ++ more) file)) (
      versions-append old more file
      ∙ ap (λ vs. versions old file ++ vs) (versions-others more file all)
      ∙ append-nil (versions old file))
    ∙ pick-ext (version_ingested (old ++ more) file) (version_ingested old file) (versions old file)
        (λ v.
          ground (
            arith,
            version_ingested-append old more file v,
            version_ingested-others more file v all,
          ))

pub later-none : (o : Option Chunk) → later o none ≡ o
later-none none = refl
later-none (some c) = refl

pub current-others :
    (old more : List Chunk) (file : Text) (index : ℕ)
    → All (IsOther file) more
    → current (old ++ more) file index ≡ current old file index
unfolding current
current-others old more file index all =
    ap (of_version (old ++ more) file index) (latest_version-others old more file all)
    ∙ same (latest_version old file)
  where
    same : (v : Option Text) → of_version (old ++ more) file index v ≡ of_version old file index v
    same none = refl
    same (some v) = ap not_deleted (
        deduplicated-append old more file v index
        ∙ ap (later (deduplicated old file v index)) (deduplicated-others more file v index all)
        ∙ later-none (deduplicated old file v index))
