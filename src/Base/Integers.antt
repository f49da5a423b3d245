-- ===== src/Base/Integers.antt =====
-- Integers over the native numbers: `negsuc n` is -(n + 1).
use Prim.Native.Nat.{ℕ, zero, suc}
use mathlib.Core.Path.{◌≡◌, refl}
use mathlib.Core.Bool.{Bool, true, false}
use mathlib.Core.List.{◌∷◌}
use radio_jockey.Base.Texts.{Text, decimal}

pub data ℤ : Type 0 where
  pos : ℕ → ℤ
  negsuc : ℕ → ℤ

-- `n - 1` and `n + 1`.
abbrev pub minus_one : ℤ → ℤ
minus_one (pos zero) = negsuc 0
minus_one (pos (suc n)) = pos n
minus_one (negsuc n) = negsuc (suc n)

abbrev pub plus_one : ℤ → ℤ
plus_one (pos n) = pos (suc n)
plus_one (negsuc zero) = pos 0
plus_one (negsuc (suc n)) = negsuc n

pub plus_one-minus_one : (n : ℤ) → plus_one (minus_one n) ≡ n
plus_one-minus_one (pos zero) = refl
plus_one-minus_one (pos (suc n)) = refl
plus_one-minus_one (negsuc n) = refl

-- `n === 0`.
abbrev pub is_zero : ℤ → Bool
is_zero (pos zero) = true
is_zero (pos (suc n)) = false
is_zero (negsuc n) = false

-- `String(n)`.
unfoldable pub decimal_ℤ : ℤ → Text
decimal_ℤ (pos n) = decimal n
decimal_ℤ (negsuc n) = b'-' ∷ decimal (suc n)
