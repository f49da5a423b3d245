-- ===== src/Web/Timestamps.antt =====
-- web/src/lib/format.ts, `formatTimestamp`: the text determines the time.
use radio_jockey.Base.{
  ℕ, zero, suc, ◌+◌, ◌*◌, ◌-◌, ◌/◌, ◌%◌, ◌≤◌, true, List, [], ◌∷◌, ◌++◌, Text, decimal, leb, ltb,
  ◌≡◌, ◌≢◌, refl, sym, ap, ◌∙◌, arith, Bool-cases, inl, inr, All, IsDigit, decimal-IsDigit,
  read-decimal, append_sep_inj, if-intro,
}
use mathlib.Core.List.{append_cancel_right}
use radio_jockey.Web.Format.{
  Fields, year_length, month_lengths, split_year, split_month, fields_of, pad, month_part,
  date_part, minute_part, time_part, print_fields, format_timestamp,
}

-- The days in the `k` years from `y` on, and in the first `k` months.
unfoldable year_start : ℕ → ℕ → ℕ
year_start zero y = 0
year_start (suc k) y = year_length y + year_start k (suc y)

unfoldable month_start : ℕ → List ℕ → ℕ
month_start zero ns = 0
month_start (suc k) [] = 0
month_start (suc k) (n ∷ ns) = n + month_start k ns

unfoldable seconds_of : Fields → ℕ
seconds_of f =
    (year_start (f.year - 1970) 1970 + month_start f.month (month_lengths f.year) + (f.day - 1))
      * 86400
    + f.hours * 3600
    + f.minutes * 60
    + f.seconds

split_year_lem :
    (fuel y d : ℕ)
    → (y ≤ (split_year fuel y d).0)
      × (year_start ((split_year fuel y d).0 - y) y + (split_year fuel y d).1 ≡ d)
unfolding split_year year_start
split_year_lem zero y d =
    let none_before : y - y ≡ 0 = omega arith in (omega arith, rw none_before (omega arith))
split_year_lem (suc fuel) y d = elim (Bool-cases (ltb d (year_length y))) [
  | inl small ↦
      let none_before : y - y ≡ 0 = omega arith in
      rw small (omega arith, rw none_before (omega arith))
  | inr large ↦
      let (above, same) = split_year_lem fuel (suc y) (d - year_length y) in
      let q = split_year fuel (suc y) (d - year_length y) in
      let next : q.0 - y ≡ suc (q.0 - suc y) = omega (arith, above) in
      let long : year_length y ≤ d = ground arith in
      rw large (omega (arith, above), rw next (omega (arith, same, long)))
]

split_month_lem :
    (ns : List ℕ) (m d : ℕ)
    → (m ≤ (split_month ns m d).0)
      × (month_start ((split_month ns m d).0 - m) ns + (split_month ns m d).1 ≡ d)
unfolding split_month month_start
split_month_lem [] m d =
    let none_before : m - m ≡ 0 = omega arith in (omega arith, rw none_before (omega arith))
split_month_lem (n ∷ ns) m d = elim (Bool-cases (ltb d n)) [
  | inl small ↦
      let none_before : m - m ≡ 0 = omega arith in
      rw small (omega arith, rw none_before (omega arith))
  | inr large ↦
      let (above, same) = split_month_lem ns (suc m) (d - n) in
      let q = split_month ns (suc m) (d - n) in
      let next : q.0 - m ≡ suc (q.0 - suc m) = omega (arith, above) in
      let long : n ≤ d = ground arith in
      rw large (omega (arith, above), rw next (omega (arith, same, long)))
]

time_lem :
    (s days : ℕ)
    → days ≡ s / 86400
    → days * 86400 + s % 86400 / 3600 * 3600 + s % 3600 / 60 * 60 + s % 60 ≡ s
time_lem s days h = omega arith

seconds_of-fields_of : (s : ℕ) → seconds_of (fields_of s) ≡ s
unfolding seconds_of fields_of
seconds_of-fields_of s =
    let y = split_year (s / 86400 / 365) 1970 (s / 86400) in
    let m = split_month (month_lengths y.0) 0 y.1 in
    let (above, days) = split_year_lem (s / 86400 / 365) 1970 (s / 86400) in
    let (start, rest) = split_month_lem (month_lengths y.0) 0 y.1 in
    let whole : m.0 - 0 ≡ m.0 = omega arith in
    let of_month : month_start m.0 (month_lengths y.0) + m.1 ≡ y.1 = rw whole at rest in
    time_lem s _ (omega (arith, days, of_month))

value : ℕ → Text → ℕ
value acc [] = acc
value acc (c ∷ s) = value (acc * 10 + (c - b'0')) s

value-decimal : (n : ℕ) → value 0 (decimal n) ≡ n
unfolding value
value-decimal n = read-decimal value (λ c. c - 48) (λ acc c s. refl) (λ d h. omega arith) n

value-pad : (n : ℕ) → value 0 (pad n) ≡ n
unfolding pad value
value-pad n = if-intro (λ t. value 0 t ≡ n) (ltb n 10) (λ _. value-decimal n) (λ _. value-decimal n)

decimal_inj : (m n : ℕ) → decimal m ≡ decimal n → m ≡ n
decimal_inj m n e = sym (value-decimal m) ∙ ap (value 0) e ∙ value-decimal n

pad_inj : (m n : ℕ) → pad m ≡ pad n → m ≡ n
pad_inj m n e = sym (value-pad m) ∙ ap (value 0) e ∙ value-pad n

pad-IsDigit : (n : ℕ) → All IsDigit (pad n)
unfolding pad
pad-IsDigit n =
    if-intro (All IsDigit) (ltb n 10) (λ _. (refl, decimal-IsDigit n)) (λ _. decimal-IsDigit n)

digits_lack :
    (sep : ℕ) → ((c : ℕ) → IsDigit c → c ≢ sep) → (t : Text) → All IsDigit t → All (λ c. c ≢ sep) t
digits_lack sep h [] k = tt
digits_lack sep h (c ∷ t) (d, k) = (h c d, digits_lack sep h t k)

digit-ne-dash : (c : ℕ) → IsDigit c → c ≢ b'-'
digit-ne-dash c d e = ground arith

digit-ne-colon : (c : ℕ) → IsDigit c → c ≢ b':'
digit-ne-colon c d e = ground arith

-- Two numbers of any width behind a separator that is no digit.
pads_inj :
    (sep : ℕ) (h : (c : ℕ) → IsDigit c → c ≢ sep) (xs ys : Text) (m n : ℕ)
    → xs ++ sep ∷ pad m ≡ ys ++ sep ∷ pad n
    → (xs ≡ ys) × (m ≡ n)
pads_inj sep h xs ys m n e =
    let (same, rest) =
      append_sep_inj sep xs ys (pad m) (pad n) (digits_lack sep h (pad m) (pad-IsDigit m))
        (digits_lack sep h (pad n) (pad-IsDigit n)) e in
    (same, pad_inj m n rest)

All-append : (P : ℕ → Type 0) (s t : Text) → All P s → All P t → All P (s ++ t)
All-append P [] t h k = k
All-append P (c ∷ s) t (p, h) k = (p, All-append P s t h k)

time_part-lacks_dash : (f : Fields) → All (λ c. c ≢ b'-') (time_part f ++ b'Z' ∷ [])
time_part-lacks_dash f =
    let lacks : (n : ℕ) → All (λ c. c ≢ b'-') (pad n) =
      λ n. digits_lack b'-' digit-ne-dash (pad n) (pad-IsDigit n) in
    let front =
      All-append (λ c. c ≢ b'-') (pad f.hours) (b':' ∷ pad f.minutes) (lacks f.hours)
        ((λ e. ground arith), lacks f.minutes) in
    All-append (λ c. c ≢ b'-') (time_part f) (b'Z' ∷ [])
      (All-append (λ c. c ≢ b'-') (pad f.hours ++ b':' ∷ pad f.minutes) (b':' ∷ pad f.seconds) front
        ((λ e. ground arith), lacks f.seconds))
      ((λ e. ground arith), tt)

print_fields_inj : (f g : Fields) → print_fields f ≡ print_fields g → seconds_of f ≡ seconds_of g
unfolding print_fields seconds_of
print_fields_inj f g e =
    let (date, time) =
      append_sep_inj b'-' (date_part f) (date_part g) (time_part f ++ b'Z' ∷ [])
        (time_part g ++ b'Z' ∷ []) (time_part-lacks_dash f) (time_part-lacks_dash g) e in
    let (year_month, day) =
      pads_inj b'-' digit-ne-dash (month_part f) (month_part g) f.day g.day date in
    let (year, month) =
      pads_inj b'-' digit-ne-dash (decimal f.year) (decimal g.year) (suc f.month) (suc g.month)
        year_month in
    let (hours_minutes, seconds) =
      pads_inj b':' digit-ne-colon (minute_part f) (minute_part g) f.seconds g.seconds
        (append_cancel_right (time_part f) (time_part g) (b'Z' ∷ []) time) in
    let (hours, minutes) =
      pads_inj b':' digit-ne-colon (pad f.hours) (pad g.hours) f.minutes g.minutes hours_minutes in
    let same_month : f.month ≡ g.month = omega (arith, month) in
    rw (
      decimal_inj f.year g.year year,
      same_month,
      day,
      pad_inj f.hours g.hours hours,
      minutes,
      seconds,
    )

-- Two times from 1970 on and within the range of `Date` that are printed alike are equal.
pub format_timestamp_inj :
    (s s' : ℕ)
    → s ≤ 8640000000000
    → s' ≤ 8640000000000
    → format_timestamp s ≡ format_timestamp s'
    → s ≡ s'
unfolding format_timestamp
format_timestamp_inj s s' h h' e =
    let inside : leb s 8640000000000 ≡ true = ground arith in
    let inside' : leb s' 8640000000000 ≡ true = ground arith in
    sym (seconds_of-fields_of s)
    ∙ print_fields_inj (fields_of s) (fields_of s') (rw (inside, inside') at e)
    ∙ seconds_of-fields_of s'
