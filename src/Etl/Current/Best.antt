-- ===== src/Etl/Current/Best.antt =====
-- Appended rows and the deduplication of the view `chunks_current`, in iac/bigquery.tf.
use go_drive_etl.Common.{
  Option-cases, ℕ, zero, suc, none, some, false, [], ◌∷◌, Text, Bool-cases, List, Option, ltb,
  text_eq, ◌++◌, ◌≡◌, inl, inr, refl, arith, ap, ◌∙◌, All,
}
use go_drive_etl.Etl.Current.{
  Chunk, rank, in_partition, later, greater, deduplicated, version_ingested, versions,
}

later_assoc : (a b c : Option Chunk) → later a (later b c) ≡ later (later a b) c
later_assoc none b c = refl
later_assoc (some a) none c = refl
later_assoc (some a) (some b) none =
    elim (Bool-cases (ltb (rank a.ingested_at) (rank b.ingested_at))) [
      | inl h ↦ rw h refl
      | inr h ↦ rw h refl
    ]
later_assoc (some a) (some b) (some c) =
    elim (Bool-cases (ltb (rank a.ingested_at) (rank b.ingested_at))) [
      | inl h ↦ elim (Bool-cases (ltb (rank b.ingested_at) (rank c.ingested_at))) [
        | inl k ↦ rw (h, k) (ground arith)
        | inr k ↦ rw (h, k) (ground arith)
      ]
      | inr h ↦ elim (Bool-cases (ltb (rank b.ingested_at) (rank c.ingested_at))) [
        | inl k ↦ rw (h, k) refl
        | inr k ↦ rw (h, k) (ground arith)
      ]
    ]

pub deduplicated-append :
    (chunks more : List Chunk) (file version : Text) (index : ℕ)
    → deduplicated (chunks ++ more) file version index
      ≡ later (deduplicated chunks file version index) (deduplicated more file version index)
unfolding deduplicated
deduplicated-append [] more file version index = refl
deduplicated-append (c ∷ chunks) more file version index =
    elim (Bool-cases (in_partition file version index c)) [
      | inl same ↦ rw same (
          ap (later (some c)) (deduplicated-append chunks more file version index)
          ∙ later_assoc (some c) (deduplicated chunks file version index)
              (deduplicated more file version index))
      | inr other ↦ rw other (deduplicated-append chunks more file version index)
    ]

pub version_ingested-append :
    (chunks more : List Chunk) (file version : Text)
    → version_ingested (chunks ++ more) file version
      ≡ greater (version_ingested chunks file version) (version_ingested more file version)
unfolding version_ingested
version_ingested-append [] more file version = ground arith
version_ingested-append (c ∷ chunks) more file version =
    ground (arith, version_ingested-append chunks more file version)

pub versions-append :
    (chunks more : List Chunk) (file : Text)
    → versions (chunks ++ more) file ≡ versions chunks file ++ versions more file
unfolding versions
versions-append [] more file = refl
versions-append (c ∷ chunks) more file = elim (Option-cases c.content_version) [
  | inl e ↦ rw e (versions-append chunks more file)
  | inr (v, e) ↦ rw e (elim (Bool-cases (text_eq c.file_id file)) [
    | inl own ↦ rw own (ap (λ vs. v ∷ vs) (versions-append chunks more file))
    | inr other ↦ rw other (versions-append chunks more file)
  ])
]

-- Rows that are appended several times.
abbrev pub repeated : ℕ → List Chunk → List Chunk
repeated zero chunks = chunks
repeated (suc n) chunks = chunks ++ repeated n chunks

later_same : (a : Option Chunk) → later a a ≡ a
later_same none = refl
later_same (some c) = ground arith

pub deduplicated-repeated :
    (n : ℕ) (chunks : List Chunk) (file version : Text) (index : ℕ)
    → deduplicated (repeated n chunks) file version index ≡ deduplicated chunks file version index
deduplicated-repeated zero chunks file version index = refl
deduplicated-repeated (suc n) chunks file version index =
    deduplicated-append chunks (repeated n chunks) file version index
    ∙ ap (later (deduplicated chunks file version index))
        (deduplicated-repeated n chunks file version index)
    ∙ later_same (deduplicated chunks file version index)

pub version_ingested-repeated :
    (n : ℕ) (chunks : List Chunk) (file version : Text)
    → version_ingested (repeated n chunks) file version ≡ version_ingested chunks file version
version_ingested-repeated zero chunks file version = refl
version_ingested-repeated (suc n) chunks file version = ground (
  arith,
  version_ingested-append chunks (repeated n chunks) file version,
  version_ingested-repeated n chunks file version,
)

-- Rows of other files do not count.
abbrev pub IsOther : Text → Chunk → Type 0
IsOther file c = text_eq c.file_id file ≡ false

pub deduplicated-others :
    (chunks : List Chunk) (file version : Text) (index : ℕ)
    → All (IsOther file) chunks
    → deduplicated chunks file version index ≡ none
unfolding deduplicated
deduplicated-others [] file version index all = refl
deduplicated-others (c ∷ chunks) file version index (h, all) =
    rw h (deduplicated-others chunks file version index all)

pub version_ingested-others :
    (chunks : List Chunk) (file version : Text)
    → All (IsOther file) chunks
    → version_ingested chunks file version ≡ 0
unfolding version_ingested
version_ingested-others [] file version all = refl
version_ingested-others (c ∷ chunks) file version (h, all) =
    rw h (version_ingested-others chunks file version all)

pub versions-others :
    (chunks : List Chunk) (file : Text) → All (IsOther file) chunks → versions chunks file ≡ []
unfolding versions
versions-others [] file all = refl
versions-others (c ∷ chunks) file (h, all) = elim (Option-cases c.content_version) [
  | inl e ↦ rw e (versions-others chunks file all)
  | inr (v, e) ↦ rw (e, h) (versions-others chunks file all)
]
