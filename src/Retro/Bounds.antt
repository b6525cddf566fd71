-- ===== src/Retro/Bounds.antt =====
-- The years and months that the layout 2006-01 of internal/parser/retro_metadata.go reads.

use go_drive_etl.Common.{ℕ, none, some, [], ◌∷◌, ◌≡◌, arith, ◌≤◌, Text, Option}
use go_drive_etl.Retro.Calendar.{parse_month, read_digits, read_month, read_year_month}
use go_drive_etl.Retro.{valid_month, checked_month}

pub read_digits-bound : (a b c d : ℕ) {y : ℕ} → read_digits a b c d ≡ some y → y ≤ 9999
unfolding read_digits
read_digits-bound a b c d h = ground arith

pub read_month-bounds : (e f : ℕ) {m : ℕ} → read_month e f ≡ some m → (1 ≤ m) × (m ≤ 12)
unfolding read_month
read_month-bounds e f h = ground arith

pub read_year_month-parts :
    (u : Option ℕ) (dash : ℕ) (v : Option ℕ) {y m : ℕ}
    → read_year_month u dash v ≡ some (y, m)
    → (u ≡ some y) × (v ≡ some m)
unfolding read_year_month
read_year_month-parts (some y) dash (some m) h = ground arith
read_year_month-parts _ dash _ h = cc

pub parse_month-bounds :
    (s : Text) {y m : ℕ} → parse_month s ≡ some (y, m) → (1 ≤ m) × (m ≤ 12) × (y ≤ 9999)
unfolding parse_month
parse_month-bounds (a ∷ b ∷ c ∷ d ∷ dash ∷ e ∷ f ∷ []) h =
    let (u, v) = read_year_month-parts (read_digits a b c d) dash (read_month e f) h in
    let (lo, hi) = read_month-bounds e f v in (lo, hi, read_digits-bound a b c d u)
parse_month-bounds _ h = cc

pub checked_month-bounds :
    (s : Text) (o : Option (ℕ × ℕ)) {y m : ℕ}
    → checked_month s o ≡ some (y, m)
    → (o ≡ some (y, m)) × (1 ≤ y)
unfolding checked_month
checked_month-bounds s none h = cc
checked_month-bounds s (some (a, b)) h = ground arith

pub valid_month-bounds :
    (s : Text) {y m : ℕ} → valid_month s ≡ some (y, m) → (1 ≤ y) × (1 ≤ m) × (m ≤ 12) × (y ≤ 9999)
unfolding valid_month
valid_month-bounds s h =
    let (parsed, pos) = checked_month-bounds s (parse_month s) h in
    let (lo, hi, fits) = parse_month-bounds s parsed in (pos, lo, hi, fits)
