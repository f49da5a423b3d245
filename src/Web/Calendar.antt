-- ===== src/Web/Calendar.antt =====
-- web/src/lib/format.ts, `formatTimestamp`: the fields of a time are those of a date and an hour.
use radio_jockey.Base.{
  ℕ, zero, suc, ◌+◌, ◌*◌, ◌-◌, ◌/◌, ◌≤◌, ◌<◌, List, [], ◌∷◌, length, ltb, ◌≡◌, arith, Bool-cases,
  inl, inr,
}
use mathlib.Core.Path.{subst}
use radio_jockey.Web.Format.{Fields, year_length, month_lengths, split_year, split_month, fields_of}

abbrev pub month_length : List ℕ → ℕ → ℕ
month_length [] m = 0
month_length (n ∷ ns) zero = n
month_length (n ∷ ns) (suc m) = month_length ns m

abbrev sum : List ℕ → ℕ
sum [] = 0
sum (n ∷ ns) = n + sum ns

-- A date of the Gregorian calendar from 1970 on, with the month counted from 0.
pub record IsDate (f : Fields) : Type 0 where
  pub from_1970 : 1970 ≤ f.year
  pub in_year : f.month < 12
  pub from_first : 1 ≤ f.day
  pub in_month : f.day ≤ month_length (month_lengths f.year) f.month
  pub in_day : f.hours < 24
  pub in_hour : f.minutes < 60
  pub in_minute : f.seconds < 60

year_length_ge : (y : ℕ) → 365 ≤ year_length y
year_length_ge y = ground arith

year_length-sum : (y : ℕ) → sum (month_lengths y) ≡ year_length y
year_length-sum y = ground arith

-- The fuel is enough: the day that is left lies in the year.
split_year-in_year :
    (fuel y d : ℕ)
    → d < 365 * (fuel + 1)
    → (y ≤ (split_year fuel y d).0)
      × ((split_year fuel y d).1 < year_length (split_year fuel y d).0)
unfolding split_year
split_year-in_year zero y d h = (omega arith, omega (arith, h, year_length_ge y))
split_year-in_year (suc fuel) y d h =
    let (above, in_year) =
      split_year-in_year fuel (suc y) (d - year_length y) (omega (arith, h, year_length_ge y)) in
    elim (Bool-cases (ltb d (year_length y))) [
      | inl small ↦ rw small (omega arith, ground arith)
      | inr large ↦ rw large (omega (arith, above), in_year)
    ]

-- The month that `split_month` finds, counted from 0, has the day that is left.
split_month-in_month :
    (ns : List ℕ) (m d : ℕ)
    → d < sum ns
    → (m ≤ (split_month ns m d).0)
      × ((split_month ns m d).0 < m + length ns)
      × ((split_month ns m d).1 < month_length ns ((split_month ns m d).0 - m))
unfolding split_month
split_month-in_month [] m d h = absurd (omega arith)
split_month-in_month (n ∷ ns) m d h = elim (Bool-cases (ltb d n)) [
  | inl small ↦
      let none_before : m - m ≡ 0 = omega arith in
      rw small (omega arith, omega arith, rw none_before (ground arith))
  | inr large ↦
      let (above, below, in_month) = split_month-in_month ns (suc m) (d - n) (ground arith) in
      let r = split_month ns (suc m) (d - n) in
      let next : r.0 - m ≡ suc (r.0 - suc m) = omega (arith, above) in
      rw large (omega (arith, above), omega (arith, below), rw next in_month)
]

-- For every time from 1970 on, the fields are those of a date and an hour: the year is 1970 at
-- least, the month, counted from 0, below 12, the day between 1 and the length of the month in
-- that year, the hour below 24, the minute and the second below 60.
pub fields_of-IsDate : (s : ℕ) → IsDate (fields_of s)
unfolding fields_of
fields_of-IsDate s =
    let days = s / 86400 in
    let (above, in_year) = split_year-in_year (days / 365) 1970 days (omega arith) in
    let q = split_year (days / 365) 1970 days in
    let (first, last, in_month) =
      split_month-in_month (month_lengths q.0) 0 q.1
        (omega (arith, in_year, year_length-sum q.0)) in
    let r = split_month (month_lengths q.0) 0 q.1 in
    let from_zero : r.0 - 0 ≡ r.0 = omega arith in
    let in_month' : r.1 < month_length (month_lengths q.0) r.0 =
      subst (λ m. r.1 < month_length (month_lengths q.0) m) from_zero in_month in
    record {
      from_1970 = above;
      in_year = last;
      from_first = omega arith;
      in_month = in_month';
      in_day = omega arith;
      in_hour = omega arith;
      in_minute = omega arith;
    }
