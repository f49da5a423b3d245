-- ===== src/Base/Texts.antt =====
-- Texts as the JavaScript strings of the program: lists of UTF-16 code units.
use Prim.Native.Nat.{ℕ, zero, suc, ◌+◌, ◌-◌, ◌/◌, ◌%◌}
use Prim.Native.Char.{code}
use Prim.Native.String.{String}
use mathlib.Core.Path.{◌≡◌, refl}
use mathlib.Core.Logic.{◌↔◌}
use mathlib.Core.Bool.{Bool, true, false, ◌&&◌}
use mathlib.Core.List.{List, [], ◌∷◌, ◌++◌}
use native.Mathlib.Omega.{arith}
use radio_jockey.Base.Tests.{ltb, leb, ◌==◌, if◌then◌else◌, ==_iff}

abbrev pub Text : Type 0
Text = List ℕ

-- The code units of a code point: one, or a surrogate pair.
unfoldable pub code_units : ℕ → Text
code_units c =
    if ltb c 0x10000
    then c ∷ []
    else (0xd800 + (c - 0x10000) / 0x400) ∷ (0xdc00 + (c - 0x10000) % 0x400) ∷ []

-- A string literal of the source.
unfoldable pub text : String → Text
unfolding code_units
text String.[] = []
text (String.◌∷◌ c s) = code_units (code c) ++ text s

-- `a === b` on strings.
unfoldable pub text_eq : Text → Text → Bool
text_eq [] [] = true
text_eq [] (_ ∷ _) = false
text_eq (_ ∷ _) [] = false
text_eq (a ∷ s) (b ∷ t) = a == b && text_eq s t

pub text_eq_iff : (s t : Text) → (text_eq s t ≡ true) ↔ (s ≡ t)
unfolding text_eq
text_eq_iff [] [] = ((λ _. refl), (λ _. refl))
text_eq_iff [] (b ∷ t) = ground arith
text_eq_iff (a ∷ s) [] = ground arith
text_eq_iff (a ∷ s) (b ∷ t) = ground (arith, text_eq_iff s t, ==_iff a b)

pub text_eq_refl : (s : Text) → text_eq s s ≡ true
text_eq_refl s = (text_eq_iff s s).1 refl

pub text_eq_comm : (s t : Text) → text_eq s t ≡ text_eq t s
unfolding text_eq
text_eq_comm [] [] = refl
text_eq_comm [] (b ∷ t) = refl
text_eq_comm (a ∷ s) [] = refl
text_eq_comm (a ∷ s) (b ∷ t) = ground (arith, text_eq_comm s t)

-- Whether a string is truthy.
abbrev pub is_nonempty : Text → Bool
is_nonempty [] = false
is_nonempty (_ ∷ _) = true

abbrev pub is_digit : ℕ → Bool
is_digit c = leb b'0' c && leb c b'9'

abbrev pub is_lower : ℕ → Bool
is_lower c = leb b'a' c && leb c b'z'

abbrev pub is_upper : ℕ → Bool
is_upper c = leb b'A' c && leb c b'Z'

-- The decimal digits of a number, before an accumulator; the fuel is above the number.
unfoldable pub decimal_from : ℕ → ℕ → Text → Text
decimal_from zero n acc = acc
decimal_from (suc fuel) n acc =
    let rest = decimal_from fuel (n / 10) ((b'0' + n % 10) ∷ acc) in
    if ltb n 10 then (b'0' + n % 10) ∷ acc else rest

-- `String(n)` of a number that is a natural.
unfoldable pub decimal : ℕ → Text
unfolding decimal_from
decimal n = decimal_from (suc n) n []

decimal_test : decimal 1207 ≡ text "1207"
unfolding decimal text
decimal_test = refl

-- `parts.join(sep)`.
unfoldable pub join : Text → List Text → Text
join sep [] = []
join sep (s ∷ []) = s
join sep (s ∷ t ∷ rest) = s ++ sep ++ join sep (t ∷ rest)
