-- ===== src/Etl/Current/Reload.antt =====
-- What the view `chunks_current` of iac/bigquery.tf shows of a file behind the load of its chunks
-- by internal/etl/worker_pool.go, where the same rows may have been appended more than once.
use mathlib.Core.Path.{subst}
use go_drive_etl.Common.{
  ℕ, none, some, true, false, [], ◌∷◌, Text, Bool-cases, List, Option, ltb, text_eq, text_eq_iff,
  text_eq_refl, ◌++◌, ◌+◌, ◌≡◌, ◌≤◌, ◌<◌, inl, inr, refl, arith, ap, sym, All, All-of,
}
use go_drive_etl.Etl.Current.{
  Chunk, rank, has_version, is_version, in_partition, later, deduplicated, version_ingested,
  versions, latest_version,
}
use go_drive_etl.Etl.Current.Best.{version_ingested-append, versions-append}
use go_drive_etl.Etl.Current.Latest.{Has, Below, pick_top}

-- A row of the version that is loaded.
pub record IsNew (file version : Text) (t : ℕ) (c : Chunk) : Type 0 where
  pub same_file : c.file_id ≡ file
  pub same_version : c.content_version ≡ some version
  pub same_time : c.ingested_at ≡ some t

-- A row that was there before: of another file, or with an earlier time, and where it has the
-- version, with an index that is loaded again.
abbrev pub IsOlder : Text → Text → ℕ → ℕ → Chunk → Type 0
IsOlder file version t size c =
    text_eq c.file_id file ≡ true
    → (rank c.ingested_at ≤ t)
      × (has_version version c.content_version ≡ true → c.chunk_index < size)

-- A row with a time before.
abbrev IsEarly : ℕ → Option Chunk → Type 0
IsEarly t none = Unit
IsEarly t (some c) = rank c.ingested_at ≤ t

later-IsEarly :
    (t : ℕ) (c : Chunk) (o : Option Chunk)
    → rank c.ingested_at ≤ t
    → IsEarly t o
    → IsEarly t (later (some c) o)
later-IsEarly t c none h k = h
later-IsEarly t c (some d) h k = elim (Bool-cases (ltb (rank c.ingested_at) (rank d.ingested_at))) [
  | inl x ↦ rw x k
  | inr x ↦ rw x h
]

pub later-new :
    (t : ℕ) (o : Option Chunk) (new : Chunk)
    → IsEarly t o
    → new.ingested_at ≡ some t
    → later o (some new) ≡ some new
later-new t none new h e = refl
later-new t (some c) new h e = ground (arith, h, ap rank e)

Has-append : (v : Text) (us vs : List Text) → Has v vs → Has v (us ++ vs)
Has-append v [] vs h = h
Has-append v (u ∷ us) vs h = inr (Has-append v us vs h)

module _ (file version : Text) (t : ℕ) where
  module _ (size : ℕ) where
    version_ingested-IsOlder :
        (chunks : List Chunk) (u : Text)
        → All (IsOlder file version t size) chunks
        → version_ingested chunks file u ≤ t
    unfolding version_ingested
    version_ingested-IsOlder [] u all = omega arith
    version_ingested-IsOlder (c ∷ chunks) u (h, all) =
        ground (arith, h, version_ingested-IsOlder chunks u all)

    pub deduplicated-IsOlder :
        (chunks : List Chunk) (index : ℕ)
        → size ≤ index
        → All (IsOlder file version t size) chunks
        → deduplicated chunks file version index ≡ none
    unfolding deduplicated
    deduplicated-IsOlder [] index h all = refl
    deduplicated-IsOlder (c ∷ chunks) index h (old, all) =
        elim (Bool-cases (in_partition file version index c)) [
          | inl same ↦ absurd (ground (arith, h, old, same))
          | inr other ↦ rw other (deduplicated-IsOlder chunks index h all)
        ]

    pub deduplicated-IsEarly :
        (chunks : List Chunk) (index : ℕ)
        → All (IsOlder file version t size) chunks
        → IsEarly t (deduplicated chunks file version index)
    unfolding deduplicated
    deduplicated-IsEarly [] index all = tt
    deduplicated-IsEarly (c ∷ chunks) index (old, all) =
        elim (Bool-cases (in_partition file version index c)) [
          | inl same ↦ rw same (
              later-IsEarly t c (deduplicated chunks file version index) (ground (arith, old, same))
                (deduplicated-IsEarly chunks index all))
          | inr other ↦ rw other (deduplicated-IsEarly chunks index all)
        ]

  is_version-IsNew :
      (u : Text) (c : Chunk) → IsNew file version t c → is_version file u c ≡ text_eq version u
  is_version-IsNew u c h = rw (h.same_file, text_eq_refl, h.same_version) refl

  version_ingested-IsNew :
      (chunks : List Chunk) (c : Chunk)
      → All (IsNew file version t) (c ∷ chunks)
      → version_ingested (c ∷ chunks) file version ≡ t + 1
  unfolding version_ingested
  version_ingested-IsNew [] c (h, all) =
      rw (is_version-IsNew version c h, text_eq_refl version) (ground (arith, ap rank h.same_time))
  version_ingested-IsNew (d ∷ chunks) c (h, all) =
      rw (is_version-IsNew version c h, text_eq_refl version)
        (ground (arith, ap rank h.same_time, version_ingested-IsNew chunks d all))

  version_ingested-other :
      (chunks : List Chunk) (u : Text)
      → text_eq version u ≡ false
      → All (IsNew file version t) chunks
      → version_ingested chunks file u ≡ 0
  unfolding version_ingested
  version_ingested-other [] u other all = refl
  version_ingested-other (c ∷ chunks) u other (h, all) =
      rw (is_version-IsNew u c h, other) (version_ingested-other chunks u other all)

  versions-Has :
      (chunks : List Chunk) (c : Chunk)
      → IsNew file version t c
      → Has version (versions (c ∷ chunks) file)
  unfolding versions
  versions-Has chunks c h = rw (h.same_version, h.same_file, text_eq_refl) (inl refl)

  -- Behind the load of a version, it is the latest of its file.
  pub latest_version-IsNew :
      (size : ℕ) (chunks more : List Chunk) (c : Chunk)
      → All (IsOlder file version t size) chunks
      → All (IsNew file version t) (c ∷ more)
      → latest_version (chunks ++ c ∷ more) file ≡ some version
  unfolding latest_version
  latest_version-IsNew size chunks more c old new =
      pick_top (version_ingested (chunks ++ c ∷ more) file) version
        (versions (chunks ++ c ∷ more) file)
        (All-of (Below (version_ingested (chunks ++ c ∷ more) file) version) below
          (versions (chunks ++ c ∷ more) file))
        (subst (Has version) (sym (versions-append chunks (c ∷ more) file)) (
          Has-append version (versions chunks file) (versions (c ∷ more) file)
            (versions-Has more c new.0)))
    where
      time : version_ingested (chunks ++ c ∷ more) file version ≡ t + 1
      time = ground (
        arith,
        version_ingested-append chunks (c ∷ more) file version,
        version_ingested-IsNew more c new,
        version_ingested-IsOlder size chunks version old,
      )

      below : (u : Text) → Below (version_ingested (chunks ++ c ∷ more) file) version u
      below u = elim (Bool-cases (text_eq version u)) [
        | inl same ↦ inl (sym ((text_eq_iff version u).0 same))
        | inr other ↦ inr (
            ground (
              arith,
              time,
              version_ingested-append chunks (c ∷ more) file u,
              version_ingested-other (c ∷ more) u other new,
              version_ingested-IsOlder size chunks u old,
            ))
      ]
