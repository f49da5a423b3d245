-- ===== src/Web/Archive/Links.antt =====
-- web/src/routes/archive: where the link to an archive leads.
use radio_jockey.Base.{
  ℕ, Bool, true, ◌||◌, Option, some, [], ◌∷◌, ◌++◌, Text, text, ◌≡◌, refl, ap, ◌∙◌, ℤ, pos, negsuc,
  suc, ◌==◌, is_digit, decimal, decimal_ℤ, decimal-IsDigit, decimal-ne-nil, IsDigit, All, arith,
  ◌≢◌,
}
use radio_jockey.Proto.Messages.{SessionArchiveInfo}
use radio_jockey.Search.References.{parse_int-decimal}
use radio_jockey.Search.Trimming.{trim, trim_start, trim_end, is_space}
use radio_jockey.Web.Archive.{
  all_units, digits_of, signed, literal, big_int, archive_href, asking, open_archive, visit,
  asking_for, open_param, with_sign, negate,
}

-- A digit or the sign of a negative number.
abbrev pub is_plain : ℕ → Bool
is_plain c = is_digit c || c == b'-'

abbrev pub IsPlain : ℕ → Type 0
IsPlain c = is_plain c ≡ true

-- The router hands on what stands behind `/archive/`.
abbrev pub RoutesArchives : (Text → Option Text) → Type 0
RoutesArchives params =
    (s : Text) → s ≢ [] → All IsPlain s → params (text "/archive/" ++ s) ≡ some s

trim_end-plain : (s : Text) → All IsPlain s → trim_end s ≡ s
unfolding trim_end is_space
trim_end-plain [] h = refl
trim_end-plain (c ∷ s) (q, h) = ground (arith, trim_end-plain s h)

trim-plain : (s : Text) → All IsPlain s → trim s ≡ s
unfolding trim trim_start is_space
trim-plain [] h = refl
trim-plain (c ∷ s) (q, h) = ground (arith, trim_end-plain (c ∷ s) (q, h))

all_units-digits : (s : Text) → All IsDigit s → all_units is_digit s ≡ true
unfolding all_units
all_units-digits [] h = refl
all_units-digits (c ∷ s) (q, h) = ground (arith, all_units-digits s h)

digits_of-decimal : (n : ℕ) → digits_of is_digit 10 (decimal n) ≡ some n
unfolding digits_of
digits_of-decimal n = rw (all_units-digits (decimal n) (decimal-IsDigit n)) (parse_int-decimal n)

-- Without a prefix or a sign, a literal is its digits.
literal-digits :
    (s : Text) → s ≢ [] → All IsDigit s → literal s ≡ with_sign pos (digits_of is_digit 10 s)
unfolding literal signed
literal-digits [] h k = absurd (h refl)
literal-digits (c ∷ []) h k = ground arith
literal-digits (c ∷ b ∷ s) h k = ground arith

literal-negative :
    (s : Text) → s ≢ [] → literal (b'-' ∷ s) ≡ with_sign negate (digits_of is_digit 10 s)
unfolding literal signed
literal-negative [] h = absurd (h refl)
literal-negative (c ∷ s) h = refl

IsDigit-IsPlain : (s : Text) → All IsDigit s → All IsPlain s
IsDigit-IsPlain [] h = tt
IsDigit-IsPlain (c ∷ s) (q, h) = (ground arith, IsDigit-IsPlain s h)

decimal_ℤ-IsPlain : (n : ℤ) → All IsPlain (decimal_ℤ n)
unfolding decimal_ℤ
decimal_ℤ-IsPlain (pos n) = IsDigit-IsPlain (decimal n) (decimal-IsDigit n)
decimal_ℤ-IsPlain (negsuc n) = (refl, IsDigit-IsPlain (decimal (suc n)) (decimal-IsDigit (suc n)))

decimal_ℤ-ne-nil : (n : ℤ) → decimal_ℤ n ≢ []
unfolding decimal_ℤ
decimal_ℤ-ne-nil (pos n) = decimal-ne-nil n
decimal_ℤ-ne-nil (negsuc n) = λ e. ground arith

literal-decimal_ℤ : (n : ℤ) → literal (decimal_ℤ n) ≡ some n
unfolding decimal_ℤ
literal-decimal_ℤ (pos n) =
    literal-digits (decimal n) (decimal-ne-nil n) (decimal-IsDigit n)
    ∙ ap (with_sign pos) (digits_of-decimal n)
literal-decimal_ℤ (negsuc n) =
    literal-negative (decimal (suc n)) (decimal-ne-nil (suc n))
    ∙ ap (with_sign negate) (digits_of-decimal (suc n))

big_int-decimal_ℤ : (n : ℤ) → big_int (decimal_ℤ n) ≡ some n
unfolding big_int
big_int-decimal_ℤ n =
    ap literal (trim-plain (decimal_ℤ n) (decimal_ℤ-IsPlain n)) ∙ literal-decimal_ℤ n

-- If the router hands on what stands behind `/archive/` in a path name, where that is digits and
-- minus signs and not empty, then the link of an archive, whatever its id, opens a page that asks
-- the server for exactly that id.
pub visit-archive_href :
    (params : Text → Option Text)
    → RoutesArchives params
    → (archive : SessionArchiveInfo)
    → visit params (archive_href archive) ≡ some (asking archive.id)
unfolding visit open_archive archive_href
visit-archive_href params routes archive =
    ap (open_param params)
      (routes (decimal_ℤ archive.id) (decimal_ℤ-ne-nil archive.id) (decimal_ℤ-IsPlain archive.id))
    ∙ ap asking_for (big_int-decimal_ℤ archive.id)
