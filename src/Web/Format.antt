-- ===== src/Web/Format.antt =====
-- web/src/lib/format.ts: the time of an archive. The fields of a `Date` in UTC are those of the
-- proleptic Gregorian calendar; a time is a number of seconds from 1970 on, none is before.
use radio_jockey.Base.{
  ℕ, zero, suc, ◌-◌, ◌/◌, ◌%◌, Bool, not, ◌&&◌, ◌||◌, List, [], ◌∷◌, ◌++◌, Text, text, decimal, leb,
  ltb, ◌==◌, if◌then◌else◌, ◌≡◌, refl,
}

pub record Fields : Type 0 where
  pub year : ℕ
  pub month : ℕ
  pub day : ℕ
  pub hours : ℕ
  pub minutes : ℕ
  pub seconds : ℕ

abbrev pub is_leap : ℕ → Bool
is_leap y = (y % 4 == 0 && not (y % 100 == 0)) || y % 400 == 0

abbrev pub year_length : ℕ → ℕ
year_length y = if is_leap y then 366 else 365

abbrev pub month_lengths : ℕ → List ℕ
month_lengths y =
    31 ∷ (if is_leap y then 29 else 28) ∷ 31 ∷ 30 ∷ 31 ∷ 30 ∷ 31 ∷ 31 ∷ 30 ∷ 31 ∷ 30 ∷ 31 ∷ []

-- The year and the day of the year, from a day counted from the first of a year; no year is shorter
-- than 365 days.
unfoldable pub split_year : ℕ → ℕ → ℕ → ℕ × ℕ
split_year zero y d = (y, d)
split_year (suc fuel) y d =
    let rest = split_year fuel (suc y) (d - year_length y) in
    if ltb d (year_length y) then (y, d) else rest

-- The month, counted from `m`, and the day of the month, from 0.
unfoldable pub split_month : List ℕ → ℕ → ℕ → ℕ × ℕ
split_month [] m d = (m, d)
split_month (n ∷ ns) m d =
    let rest = split_month ns (suc m) (d - n) in if ltb d n then (m, d) else rest

unfoldable pub fields_of : ℕ → Fields
unfolding split_year split_month
fields_of s =
    let (year, day) = split_year (s / 86400 / 365) 1970 (s / 86400) in
    let (month, rest) = split_month (month_lengths year) 0 day in
    record {
      year = year;
      month = month;
      day = suc rest;
      hours = s % 86400 / 3600;
      minutes = s % 3600 / 60;
      seconds = s % 60;
    }

unfoldable pub pad : ℕ → Text
pad n = if ltb n 10 then b'0' ∷ decimal n else decimal n

-- The year and the month of `datePart`, the hour and the minute of `timePart`.
abbrev pub month_part : Fields → Text
month_part f = decimal f.year ++ b'-' ∷ pad (suc f.month)

abbrev pub date_part : Fields → Text
date_part f = month_part f ++ b'-' ∷ pad f.day

abbrev pub minute_part : Fields → Text
minute_part f = pad f.hours ++ b':' ∷ pad f.minutes

abbrev pub time_part : Fields → Text
time_part f = minute_part f ++ b':' ∷ pad f.seconds

unfoldable pub print_fields : Fields → Text
unfolding pad
print_fields f = date_part f ++ b'-' ∷ (time_part f ++ b'Z' ∷ [])

-- A `Date` reaches to 8.64e12 seconds; beyond, its fields are NaN.
unfoldable pub format_timestamp : ℕ → Text
unfolding fields_of print_fields
format_timestamp s =
    if leb s 8640000000000 then print_fields (fields_of s) else text "NaN-NaN-NaN-NaN:NaN:NaNZ"

format_test :
    (format_timestamp 1709208000 ≡ text "2024-02-29-12:00:00Z")
    × (format_timestamp 951868799 ≡ text "2000-02-29-23:59:59Z")
    × (format_timestamp 0 ≡ text "1970-01-01-00:00:00Z")
unfolding format_timestamp text decimal
format_test = (refl, refl, refl)
