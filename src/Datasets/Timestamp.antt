-- ===== src/Datasets/Timestamp.antt =====
-- datasets/labels.py, `parse_utc_timestamp`: the pattern, then what `datetime.fromisoformat` does
-- with a text of that pattern. The result counts microseconds from the first day of year 1.
pub mod Text
pub mod RoundTrip
use Prim.Native.Nat.{◌/◌, ◌%◌}
use Prim.Native.Char.{code}
use Prim.Native.String.{[], ◌∷◌}
use sentinel_aegis_forge.Common.{
  ℕ, zero, suc, ◌+◌, ◌-◌, ◌*◌, String, Bool, false, not, ◌&&◌, ◌||◌, leb, nat_beq, ◌==◌, string_eq,
  nat_eq, if◌then◌else◌, Result, ok, err, ◌>>=◌, ◌>>◌, raise_if,
}
use sentinel_aegis_forge.Datasets.Time.{Instant, TimeError, invalid_text}

is_digit : ℕ → Bool
is_digit c = leb b'0' c && leb c b'9'

-- `\d{n}`, as a number
pub digits : ℕ → ℕ → String → Result TimeError (ℕ × String)
unfolding is_digit
digits zero acc s = ok (acc, s)
digits (suc n) acc [] = err invalid_text
digits (suc n) acc (c ∷ s) =
    if is_digit (code c) then digits n (acc * 10 + (code c - b'0')) s else err invalid_text

literal : ℕ → String → Result TimeError String
literal expected [] = err invalid_text
literal expected (c ∷ s) = if nat_beq (code c) expected then ok s else err invalid_text

-- up to `n` digits, each worth a tenth of the one before
pub tenths : ℕ → ℕ → ℕ → String → ℕ × String
unfolding is_digit
tenths zero scale acc s = (acc, s)
tenths (suc n) scale acc [] = (acc, [])
tenths (suc n) scale acc (c ∷ s) =
    if is_digit (code c)
    then tenths n (scale / 10) (acc + (code c - b'0') * scale) s
    else (acc, c ∷ s)

pub first_is_digit : String → Bool
unfolding is_digit
first_is_digit [] = false
first_is_digit (c ∷ s) = is_digit (code c)

-- `(?:\.\d{1,6})?`, in microseconds
pub fraction : String → Result TimeError (ℕ × String)
unfolding tenths first_is_digit
fraction [] = ok (0, [])
fraction (c ∷ s) =
    if nat_beq (code c) b'.'
    then if first_is_digit s then ok (tenths 6 100_000 0 s) else err invalid_text
    else ok (0, c ∷ s)

-- `calendar.isleap` and the day counts of `datetime`
is_leap : ℕ → Bool
is_leap year = if nat_beq (year % 100) 0 then nat_beq (year % 400) 0 else nat_beq (year % 4) 0

pub days_in_month : ℕ → ℕ → ℕ
unfolding is_leap
days_in_month year month =
    if nat_beq month 2
    then 28 + (if is_leap year then 1 else 0)
    else 31 - (if month == 4 || month == 6 || month == 9 || month == 11 then 1 else 0)

pub days_before_year : ℕ → ℕ
days_before_year year = let past = year - 1 in 365 * past + past / 400 + past / 4 - past / 100

-- the days of the first `count` months
pub days_of_months : ℕ → ℕ → ℕ
unfolding days_in_month
days_of_months year zero = 0
days_of_months year (suc count) = days_in_month year (suc count) + days_of_months year count

unfoldable pub parse_utc_timestamp : String → Result TimeError Instant
unfolding digits literal fraction days_in_month days_before_year days_of_months
parse_utc_timestamp value = do
  (year, s) ← digits 4 0 value
  s ← literal b'-' s
  (month, s) ← digits 2 0 s
  s ← literal b'-' s
  (day, s) ← digits 2 0 s
  s ← literal b'T' s
  (hour, s) ← digits 2 0 s
  s ← literal b':' s
  (minute, s) ← digits 2 0 s
  s ← literal b':' s
  (second, s) ← digits 2 0 s
  (micros, s) ← fraction s
  raise_if (not (s == "Z" || s == "+00:00")) invalid_text
  raise_if
      (not (
        leb 1 year
        && leb 1 month
        && leb month 12
        && leb 1 day
        && leb day (days_in_month year month)))
      invalid_text
  raise_if (not (leb hour 23 && leb minute 59 && leb second 59)) invalid_text
  let days = days_before_year year + days_of_months year (month - 1) + (day - 1)
  ok ((((days * 24 + hour) * 60 + minute) * 60 + second) * 1_000_000 + micros)
