-- ===== src/Datasets/Timestamp/RoundTrip.antt =====
-- Reading a printed instant gives it back.
pub mod Digits
pub mod Calendar
use Prim.Native.Nat.{◌/◌, ◌%◌}
use sentinel_aegis_forge.Common.{
  ℕ, ◌+◌, ◌-◌, ◌*◌, ◌≤◌, ◌<◌, ◌≡◌, refl, ap, ◌∙◌, inl, inr, true, arith, ltb, leb, ltb→lt, ltb→le,
  Bool-cases, nat_eq, string_eq, pair_eq, list_eq, ok,
}
use sentinel_aegis_forge.Datasets.Timestamp.{
  Instant, literal, days_in_month, days_before_year, days_of_months, parse_utc_timestamp,
}
use sentinel_aegis_forge.Datasets.Timestamp.Text.{utc_text, find_year, find_month, iso_text}
use sentinel_aegis_forge.Datasets.Timestamp.RoundTrip.Calendar.{
  find_year_lem, months, find_month_lem, days_in_month_bound,
}
use sentinel_aegis_forge.Datasets.Timestamp.RoundTrip.Digits.{digits-two, digits-four, fraction-six}

leb-true : (a b : ℕ) → a ≤ b → leb a b ≡ true
leb-true a b h = ground arith

-- The tests of the fields, and what they count.
parse-iso_text :
    (year month day hour minute second micros : ℕ)
    → (1 ≤ year) × (year < 10_000)
    → (1 ≤ month) × (month ≤ 12)
    → (1 ≤ day) × (day ≤ days_in_month year month)
    → hour < 24
    → minute < 60
    → second < 60
    → micros < 1_000_000
    → parse_utc_timestamp (iso_text year month day hour minute second micros)
      ≡ ok (
          ((((days_before_year year + days_of_months year (month - 1) + (day - 1)) * 24 + hour) * 60
                  + minute)
                * 60
              + second)
            * 1_000_000
          + micros)
unfolding parse_utc_timestamp iso_text literal
parse-iso_text year month day hour minute second micros hy hm hd h1 h2 h3 h4 =
    rw
      (
        digits-four year _ hy.1,
        digits-two month _ (omega arith),
        digits-two day _ (omega (arith, hd.1, days_in_month_bound year month)),
        digits-two hour _ (omega arith),
        digits-two minute _ (omega arith),
        digits-two second _ (omega arith),
        fraction-six micros _ h4,
        leb-true 1 year hy.0,
        leb-true 1 month hm.0,
        leb-true month 12 hm.1,
        leb-true 1 day hd.0,
        leb-true day (days_in_month year month) hd.1,
        leb-true hour 23 (omega arith),
        leb-true minute 59 (omega arith),
        leb-true second 59 (omega arith),
      )
      refl

no_months : (y : ℕ) → days_of_months y 0 ≡ 0
unfolding days_of_months
no_months y = refl

first_year : days_before_year 1 ≡ 0
unfolding days_before_year
first_year = refl

-- the first instant after the year 9999
abbrev pub end_of_time : ℕ
end_of_time = 3_652_059 * 86_400 * 1_000_000

far_year : (y : ℕ) → 10_000 ≤ y → 3_652_059 ≤ days_before_year y
unfolding days_before_year
far_year y h = omega arith

-- The instants that a `datetime` can hold, microseconds from the first day of year 1 to the end of
-- year 9999, are read back by `parse_utc_timestamp` from what `utc_text` prints.
pub parse-utc_text : (t : Instant) → t < end_of_time → parse_utc_timestamp (utc_text t) ≡ ok t
unfolding utc_text
parse-utc_text t h =
    let seconds = t / 1_000_000 in
    let days = seconds / 86_400 in
    let in_day = seconds % 86_400 in
    let found = find_year days 1 days in
    let (same_day, in_year, first) = find_year_lem days 1 days (omega arith) (omega arith) in
    let year = found.0 in
    let whole = months year in
    let month_found = find_month 11 year 1 found.1 in
    let (same_month, in_month, low, high) =
      find_month_lem 11 year 0 found.1 (omega (arith, in_year, whole, no_months year)) in
    let small : year < 10_000 = elim (Bool-cases (ltb year 10_000)) [
      | inl before ↦ ltb→lt year 10_000 before
      | inr far ↦
          absurd (omega (arith, h, same_day, first_year, far_year year (ltb→le year 10_000 far)))
    ] in
    parse-iso_text year month_found.0 (month_found.1 + 1) (in_day / 3600) (in_day / 60 % 60)
      (in_day % 60) (t % 1_000_000) (first, small) (low, high)
      (omega arith, omega (arith, in_month)) (omega arith) (omega arith) (omega arith) (omega arith)
    ∙ ap (λ u. ok u) (omega (arith, same_day, same_month, first_year, no_months year))
