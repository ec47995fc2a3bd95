-- ===== src/Datasets/Timestamp/RoundTrip/Calendar.antt =====
-- The search for the year and the month of a day.
use sentinel_aegis_forge.Common.{
  ℕ, zero, suc, ◌+◌, ◌-◌, ◌≤◌, ◌<◌, ◌≡◌, refl, ap, subst, inl, inr, arith, ltb, ltb→lt, ltb→le,
  Bool-cases, nat_eq, string_eq, pair_eq, list_eq,
}
use sentinel_aegis_forge.Datasets.Timestamp.{
  is_leap, days_in_month, days_before_year, days_of_months,
}
use sentinel_aegis_forge.Datasets.Timestamp.Text.{days_in_year, find_year, find_month}

days_before_year-suc :
    (y : ℕ) → 1 ≤ y → days_before_year (y + 1) ≡ days_before_year y + days_in_year y
unfolding days_before_year days_in_year is_leap
days_before_year-suc y h = ground arith

pub find_year_lem :
    (fuel y d : ℕ)
    → 1 ≤ y
    → d ≤ fuel
    → let r = find_year fuel y d in
      (days_before_year r.0 + r.1 ≡ days_before_year y + d) × (r.1 < days_in_year r.0) × (y ≤ r.0)
unfolding find_year
find_year_lem zero y d h small = (refl, ground arith, omega arith)
find_year_lem (suc fuel) y d h small = elim (Bool-cases (ltb d (days_in_year y))) [
  | inl inside ↦ rw (inside, find_year) (refl, ltb→lt d (days_in_year y) inside, omega arith)
  | inr after ↦
      let past = ltb→le d (days_in_year y) after in
      let (same, short, later) =
        find_year_lem fuel (y + 1) (d - days_in_year y) (omega arith) (ground arith) in
      rw (after, find_year)
        (omega (arith, same, past, days_before_year-suc y h), short, omega (arith, later))
]

-- the days of the months from the first to the twelfth
pub months : (y : ℕ) → days_of_months y 12 ≡ days_in_year y
unfolding days_of_months days_in_month days_in_year
months y = elim (Bool-cases (is_leap y)) [ inl h ↦ rw h refl | inr h ↦ rw h refl ]

days_of_months-suc :
    (y m : ℕ) → days_of_months y (suc m) ≡ days_in_month y (suc m) + days_of_months y m
unfolding days_of_months
days_of_months-suc y m = refl

days_of_months-next :
    (y m : ℕ) → days_of_months y (m + 1) ≡ days_in_month y (m + 1) + days_of_months y m
days_of_months-next y m =
    subst (λ t. days_of_months y t ≡ days_in_month y t + days_of_months y m) (omega arith)
      (days_of_months-suc y m)

-- What `find_month` finds from the start of a month: a month of the year, and a day in it.
abbrev pub IsFound : ℕ → ℕ → ℕ → ℕ → ℕ × ℕ → Type 0
IsFound y m d last r =
    (days_of_months y (r.0 - 1) + r.1 ≡ days_of_months y m + d)
    × (r.1 < days_in_month y r.0)
    × (1 ≤ r.0)
    × (r.0 ≤ last)

here : (y m d last : ℕ) → d < days_in_month y (m + 1) → m + 1 ≤ last → IsFound y m d last (m + 1, d)
here y m d last h fits = (ap (λ t. days_of_months y t + d) (omega arith), h, omega arith, fits)

-- `m + 1` is the month to start from, `left` the months after it
pub find_month_lem :
    (left y m d : ℕ)
    → d + days_of_months y m < days_of_months y (m + left + 1)
    → IsFound y m d (m + left + 1) (find_month left y (m + 1) d)
unfolding find_month
find_month_lem zero y m d h =
    let last : days_of_months y (m + 0 + 1) ≡ days_of_months y (m + 1) =
      ap (days_of_months y) (omega arith) in
    here y m d (m + 0 + 1) (omega (arith, h, last, days_of_months-next y m)) (omega arith)
find_month_lem (suc left) y m d h = elim (Bool-cases (ltb d (days_in_month y (m + 1)))) [
  | inl inside ↦
      rw (inside, find_month) (here y m d (m + suc left + 1) (ltb→lt d _ inside) (omega arith))
  | inr after ↦
      let past = ltb→le d (days_in_month y (m + 1)) after in
      let next = days_of_months-next y m in
      let end : days_of_months y (m + suc left + 1) ≡ days_of_months y (m + 1 + left + 1) =
        ap (days_of_months y) (omega arith) in
      let (same, short, low, high) =
        find_month_lem left y (m + 1) (d - days_in_month y (m + 1))
          (omega (arith, h, past, next, end)) in
      rw (after, find_month) (omega (arith, same, past, next), short, low, omega (arith, high))
]

pub days_in_month_bound : (y m : ℕ) → days_in_month y m ≤ 31
unfolding days_in_month
days_in_month_bound y m = ground arith
