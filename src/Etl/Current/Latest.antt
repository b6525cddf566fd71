-- ===== src/Etl/Current/Latest.antt =====
-- The version of a file that the view `chunks_current` of iac/bigquery.tf shows.
use mathlib.Core.Path.{subst, fun_ext}
use go_drive_etl.Common.{
  Bool-cases, ℕ, none, some, true, false, [], ◌∷◌, Text, List, Option, ◌≡◌, ◌<◌, ◌⊎◌, inl, inr,
  refl, arith, ap, All,
}
use go_drive_etl.Etl.Current.{comes_before, first_of, pick}

abbrev pub Has : Text → List Text → Type 0
Has v [] = ⊥
Has v (u ∷ vs) = (u ≡ v) ⊎ Has v vs

-- The version, or one with a lower time.
abbrev pub Below : (Text → ℕ) → Text → Text → Type 0
Below at v u = (u ≡ v) ⊎ (at u < at v)

first_of-Below :
    (at : Text → ℕ) (v u : Text) (o : Option Text)
    → Below at v u
    → ((w : Text) → o ≡ some w → Below at v w)
    → Below at v (first_of at u o)
first_of-Below at v u none b h = b
first_of-Below at v u (some w) b h = elim (Bool-cases (comes_before at w u)) [
  | inl first ↦ rw first (h w refl)
  | inr second ↦ rw second b
]

pick-Below :
    (at : Text → ℕ) (v : Text) (vs : List Text)
    → All (Below at v) vs
    → (w : Text) → pick at vs ≡ some w
    → Below at v w
unfolding pick
pick-Below at v [] all w e = cc
pick-Below at v (u ∷ vs) (b, all) w e =
    let same : first_of at u (pick at vs) ≡ w = cc in
    subst (Below at v) same (first_of-Below at v u (pick at vs) b (pick-Below at v vs all))

not_before : (at : Text → ℕ) (w u : Text) → at w < at u → comes_before at w u ≡ false
not_before at w u h = ground (arith, h)

before : (at : Text → ℕ) (w u : Text) → at u < at w → comes_before at w u ≡ true
before at w u h = ground (arith, h)

first_of-top :
    (at : Text → ℕ) (v u : Text) (o : Option Text)
    → Below at v u
    → ((w : Text) → o ≡ some w → Below at v w)
    → (u ≡ v) ⊎ (o ≡ some v)
    → first_of at u o ≡ v
first_of-top at v u none b below (inl e) = e
first_of-top at v u none b below (inr e) = cc
first_of-top at v u (some w) b below (inl e) = elim (below w refl) [
  | inl same ↦ elim (Bool-cases (comes_before at w u)) [ inl x ↦ rw x same | inr x ↦ rw x e ]
  | inr lower ↦ rw (not_before at w u (rw e lower)) e
]
first_of-top at v u (some w) b below (inr e) =
    let same : w ≡ v = cc in
    elim b [
      | inl own ↦ elim (Bool-cases (comes_before at w u)) [ inl x ↦ rw x same | inr x ↦ rw x own ]
      | inr lower ↦ rw (before at w u (rw same lower)) same
    ]

-- The version with the highest time comes first.
pub pick_top :
    (at : Text → ℕ) (v : Text) (vs : List Text)
    → All (Below at v) vs
    → Has v vs
    → pick at vs ≡ some v
unfolding pick
pick_top at v [] all has = absurd has
pick_top at v (u ∷ vs) (b, all) has = ap some (
    first_of-top at v u (pick at vs) b (pick-Below at v vs all)
      (elim has [ inl e ↦ inl e | inr h ↦ inr (pick_top at v vs all h) ]))

pub pick-ext :
    (at at' : Text → ℕ) (vs : List Text) → ((v : Text) → at v ≡ at' v) → pick at vs ≡ pick at' vs
unfolding pick
pick-ext at at' vs h = ap (λ f. pick f vs) (fun_ext h)
