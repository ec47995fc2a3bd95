-- ===== src/Datasets/Timestamp/Text.antt =====
-- datasets/labels.py, `utc_text`: `isoformat` with six digits of a second and `Z` for the offset. The
-- fields of a datetime are found again from the count of microseconds that stands for it.
use Prim.Native.Nat.{◌/◌, ◌%◌}
use Prim.Native.Char.{Char, char}
use Prim.Native.String.{[], ◌∷◌}
use sentinel_aegis_forge.Common.{
  true, false, ℕ, zero, suc, ◌+◌, ◌-◌, String, [], ◌∷◌, ltb, if◌then◌else◌, nat_eq, string_eq,
  pair_eq, list_eq,
}
use sentinel_aegis_forge.Datasets.Time.{Instant}
use sentinel_aegis_forge.Datasets.Timestamp.{is_leap, days_in_month}

-- the character of a digit
unfoldable pub digit_char : ℕ → Char
digit_char zero = char 48 tt
digit_char (suc zero) = char 49 tt
digit_char (suc (suc zero)) = char 50 tt
digit_char (suc (suc (suc zero))) = char 51 tt
digit_char (suc (suc (suc (suc zero)))) = char 52 tt
digit_char (suc (suc (suc (suc (suc zero))))) = char 53 tt
digit_char (suc (suc (suc (suc (suc (suc zero)))))) = char 54 tt
digit_char (suc (suc (suc (suc (suc (suc (suc zero))))))) = char 55 tt
digit_char (suc (suc (suc (suc (suc (suc (suc (suc zero)))))))) = char 56 tt
digit_char _ = char 57 tt

-- two, four and six digits before a text
unfoldable pub pad_2 : ℕ → String → String
pad_2 n s = digit_char (n / 10) ∷ digit_char (n % 10) ∷ s

unfoldable pub pad_4 : ℕ → String → String
unfolding pad_2
pad_4 n s = pad_2 (n / 100) (pad_2 (n % 100) s)

unfoldable pub pad_6 : ℕ → String → String
unfolding pad_2 pad_4
pad_6 n s = pad_2 (n / 10_000) (pad_4 (n % 10_000) s)

unfoldable pub days_in_year : ℕ → ℕ
unfolding is_leap
days_in_year year = 365 + (if is_leap year then 1 else 0)

-- the year of a day that is counted from the start of `year`, and the day in that year; a year has
-- at least one day, so that the days are fuel enough
unfoldable pub find_year : ℕ → ℕ → ℕ → ℕ × ℕ
unfolding days_in_year
find_year zero year days = (year, days)
find_year (suc fuel) year days = elim (ltb days (days_in_year year)) [
  | true ↦ (year, days)
  | false ↦ find_year fuel (year + 1) (days - days_in_year year)
]

-- the month of a day that is counted from the start of `month`, with the months that follow it
unfoldable pub find_month : ℕ → ℕ → ℕ → ℕ → ℕ × ℕ
unfolding days_in_month
find_month zero year month days = (month, days)
find_month (suc left) year month days = elim (ltb days (days_in_month year month)) [
  | true ↦ (month, days)
  | false ↦ find_month left year (month + 1) (days - days_in_month year month)
]

-- `year-month-dayThour:minute:second.microsecondZ`
unfoldable pub iso_text : ℕ → ℕ → ℕ → ℕ → ℕ → ℕ → ℕ → String
unfolding pad_2 pad_4 pad_6
iso_text year month day hour minute second micros = pad_4 year (
    char b'-' tt
    ∷ pad_2 month (
        char b'-' tt
        ∷ pad_2 day (
            char b'T' tt
            ∷ pad_2 hour (
                char b':' tt
                ∷ pad_2 minute (
                    char b':' tt
                    ∷ pad_2 second (char b'.' tt ∷ pad_6 micros (char b'Z' tt ∷ [])))))))

-- `utc_text`
unfoldable pub utc_text : Instant → String
unfolding iso_text find_year find_month
utc_text t =
    let seconds = t / 1_000_000 in
    let days = seconds / 86_400 in
    let in_day = seconds % 86_400 in
    let (year, day_of_year) = find_year days 1 days in
    let (month, day) = find_month 11 year 1 day_of_year in
    iso_text year month (day + 1) (in_day / 3600) (in_day / 60 % 60) (in_day % 60) (t % 1_000_000)
