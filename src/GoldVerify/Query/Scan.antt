-- ===== src/GoldVerify/Query/Scan.antt =====
-- What `strings.ReplaceAll` does in internal/goldverify/query.go to a text in which paths of three
-- names stand between texts without dots.
use mathlib.Core.Path.{subst}
use go_drive_etl.Common.{
  ℕ, zero, suc, true, false, [], ◌∷◌, Text, Bool, ◌≡◌, refl, ap, not, ◌&&◌, ◌||◌, ◌==◌, length,
  ◌++◌, ◌-◌, has_prefix, text_eq, arith, append_assoc, sym,
}
use go_drive_etl.GoldVerify.Query.{is_word, replace_from}

abbrev pub is_name_char : ℕ → Bool
is_name_char c = is_word c || c == b'-'

abbrev pub all_names : Text → Bool
all_names [] = true
all_names (c ∷ s) = is_name_char c && all_names s

-- The units that stand beside a path.
abbrev pub is_break : ℕ → Bool
is_break c = c == b' ' || c == b')' || c == b'`'

abbrev pub no_dots : Text → Bool
no_dots [] = true
no_dots (c ∷ s) = not (c == b'.') && no_dots s

abbrev pub ends_in_break : Text → Bool
ends_in_break [] = false
ends_in_break (c ∷ []) = is_break c
ends_in_break (c ∷ d ∷ s) = ends_in_break (d ∷ s)

pub no_dots-names : (s : Text) → all_names s ≡ true → no_dots s ≡ true
no_dots-names [] h = refl
no_dots-names (c ∷ s) h = ground (arith, no_dots-names s)

-- A first name followed by a dot is compared as a whole.
pub has_prefix-dot :
    (u name r x : Text)
    → no_dots u ≡ true
    → no_dots name ≡ true
    → has_prefix (u ++ b'.' ∷ r) (name ++ b'.' ∷ x) ≡ (text_eq u name && has_prefix r x)
has_prefix-dot [] [] r x h k = refl
has_prefix-dot [] (d ∷ name) r x h k = ground arith
has_prefix-dot (c ∷ u) [] r x h k = ground arith
has_prefix-dot (c ∷ u) (d ∷ name) r x h k = ground (arith, has_prefix-dot u name r x)

-- A name does not reach over a break.
pub has_prefix-break :
    (u : Text) (z : ℕ) (r name x : Text)
    → no_dots u ≡ true
    → is_break z ≡ true
    → all_names name ≡ true
    → has_prefix (u ++ z ∷ r) (name ++ b'.' ∷ x) ≡ false
has_prefix-break [] z r [] x h b k = ground arith
has_prefix-break [] z r (d ∷ name) x h b k = ground arith
has_prefix-break (c ∷ u) z r [] x h b k = ground arith
has_prefix-break (c ∷ u) z r (d ∷ name) x h b k = ground (arith, has_prefix-break u z r name x)

has_prefix-ends :
    (u r name x : Text)
    → no_dots u ≡ true
    → ends_in_break u ≡ true
    → all_names name ≡ true
    → has_prefix (u ++ r) (name ++ b'.' ∷ x) ≡ false
has_prefix-ends [] r name x h b k = cc
has_prefix-ends (c ∷ []) r name x h b k = has_prefix-break [] c r name x refl b k
has_prefix-ends (c ∷ d ∷ u) r [] x h b k = ground arith
has_prefix-ends (c ∷ d ∷ u) r (e ∷ name) x h b k = ground (arith, has_prefix-ends (d ∷ u) r name x)

has_prefix-no_dots : (u name x : Text) → no_dots u ≡ true → has_prefix u (name ++ b'.' ∷ x) ≡ false
has_prefix-no_dots [] [] x h = refl
has_prefix-no_dots [] (d ∷ name) x h = refl
has_prefix-no_dots (c ∷ u) [] x h = ground arith
has_prefix-no_dots (c ∷ u) (d ∷ name) x h = ground (arith, has_prefix-no_dots u name x)

-- No unit of `u`, before `r`, begins a match.
abbrev pub NoMatch : Text → Text → Text → Type 0
NoMatch old [] r = Unit
NoMatch old (c ∷ u) r = (has_prefix (c ∷ (u ++ r)) old ≡ false) × NoMatch old u r

pub NoMatch-append :
    (old u v r : Text) → NoMatch old u (v ++ r) → NoMatch old v r → NoMatch old (u ++ v) r
NoMatch-append old [] v r h k = k
NoMatch-append old (c ∷ u) v r (e, h) k = (rw append_assoc e, NoMatch-append old u v r h k)

pub replace_from-NoMatch :
    (old new u r : Text)
    → NoMatch old u r
    → replace_from zero old new (u ++ r) ≡ u ++ replace_from zero old new r
unfolding replace_from
replace_from-NoMatch old new [] r h = refl
replace_from-NoMatch old new (c ∷ u) r (e, h) =
    rw (replace_from, e) (ap (λ (t : Text). c ∷ t) (replace_from-NoMatch old new u r h))

replace_from-skip :
    (old new u r : Text) → replace_from (length u) old new (u ++ r) ≡ replace_from zero old new r
unfolding replace_from
replace_from-skip old new [] r = refl
replace_from-skip old new (c ∷ u) r = replace_from-skip old new u r

has_prefix_self : (u r : Text) → has_prefix (u ++ r) u ≡ true
has_prefix_self [] r = refl
has_prefix_self (c ∷ u) r = ground (arith, has_prefix_self u r)

pub replace_from-match :
    (c : ℕ) (u new r : Text)
    → replace_from zero (c ∷ u) new ((c ∷ u) ++ r) ≡ new ++ replace_from zero (c ∷ u) new r
unfolding replace_from
replace_from-match c u new r =
    rw (replace_from, has_prefix_self (c ∷ u) r)
      (ap (λ (t : Text). new ++ t)
        (let e : suc (length u) - 1 ≡ length u = omega arith in
          rw e (replace_from-skip (c ∷ u) new u r)))

pub replace_from_self :
    (old new r u : Text) (c : ℕ)
    → old ≡ c ∷ u
    → replace_from zero old new (old ++ r) ≡ new ++ replace_from zero old new r
replace_from_self old new r u c e =
    subst (λ (o : Text). replace_from zero o new (o ++ r) ≡ new ++ replace_from zero o new r)
      (sym e) (replace_from-match c u new r)

-- What stands before a path or behind the last one.
pub ends-NoMatch :
    (u r name x : Text)
    → no_dots u ≡ true
    → ends_in_break u ≡ true
    → all_names name ≡ true
    → NoMatch (name ++ b'.' ∷ x) u r
ends-NoMatch [] r name x h b k = tt
ends-NoMatch (c ∷ []) r name x h b k = (has_prefix-ends (c ∷ []) r name x h b k, tt)
ends-NoMatch (c ∷ d ∷ u) r name x h b k =
    (has_prefix-ends (c ∷ d ∷ u) r name x h b k, ends-NoMatch (d ∷ u) r name x (ground arith) b k)

pub replace_from-no_dots :
    (u name x new : Text) → no_dots u ≡ true → replace_from zero (name ++ b'.' ∷ x) new u ≡ u
unfolding replace_from
replace_from-no_dots [] name x new h = refl
replace_from-no_dots (c ∷ u) name x new h =
    rw (replace_from, has_prefix-no_dots (c ∷ u) name x h)
      (ap (λ (t : Text). c ∷ t) (replace_from-no_dots u name x new (ground arith)))
