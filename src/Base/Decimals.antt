-- ===== src/Base/Decimals.antt =====
-- What the decimal digits of a number are.
use Prim.Native.Nat.{ℕ, zero, suc, ◌+◌, ◌*◌, ◌/◌, ◌%◌, ◌<◌}
use mathlib.Core.Path.{◌≡◌}
use mathlib.Core.Bool.{true}
use mathlib.Core.Logic.{◌≢◌, inl, inr}
use mathlib.Core.List.{[], ◌∷◌}
use native.Mathlib.Omega.{arith}
use radio_jockey.Base.Tests.{ltb, Bool-cases}
use radio_jockey.Base.Lists.{All}
use radio_jockey.Base.Texts.{Text, is_digit, decimal_from, decimal}

abbrev pub IsDigit : ℕ → Type 0
IsDigit c = is_digit c ≡ true

decimal_from-IsDigit :
    (fuel n : ℕ) (acc : Text) → n < fuel → All IsDigit acc → All IsDigit (decimal_from fuel n acc)
unfolding decimal_from
decimal_from-IsDigit zero n acc h k = k
decimal_from-IsDigit (suc fuel) n acc h k = elim (Bool-cases (ltb n 10)) [
  | inl small ↦ rw small (ground arith, k)
  | inr large ↦
      rw large
        (decimal_from-IsDigit fuel (n / 10) ((48 + n % 10) ∷ acc) (ground arith) (ground arith, k))
]

pub decimal-IsDigit : (n : ℕ) → All IsDigit (decimal n)
unfolding decimal
decimal-IsDigit n = decimal_from-IsDigit (suc n) n [] (omega arith) tt

-- A fold over digits, most significant first, that meets the digits of a number reads the number.
module _ {ℓ} {A : Type ℓ} (read : ℕ → Text → A) (digit_value : ℕ → ℕ)
    (reads : (acc c : ℕ) (s : Text) → read acc (c ∷ s) ≡ read (acc * 10 + digit_value c) s)
    (value : (d : ℕ) → d < 10 → digit_value (48 + d) ≡ d) where
  read-decimal_from :
      (fuel n : ℕ) (acc : Text) → n < fuel → read 0 (decimal_from fuel n acc) ≡ read n acc
  unfolding decimal_from
  read-decimal_from zero n acc h = absurd (omega arith)
  read-decimal_from (suc fuel) n acc h = elim (Bool-cases (ltb n 10)) [
    | inl small ↦
        let same : 0 * 10 + digit_value (48 + n % 10) ≡ n = ground (arith, value (n % 10)) in
        rw (small, reads, same)
    | inr large ↦
        let same : n / 10 * 10 + digit_value (48 + n % 10) ≡ n =
          omega (arith, value (n % 10) (omega arith)) in
        rw
          (large, read-decimal_from fuel (n / 10) ((48 + n % 10) ∷ acc) (ground arith), reads, same)
  ]

  pub read-decimal : (n : ℕ) → read 0 (decimal n) ≡ read n []
  unfolding decimal
  read-decimal n = read-decimal_from (suc n) n [] (omega arith)

decimal_from-ne-nil : (fuel n : ℕ) (acc : Text) → n < fuel → decimal_from fuel n acc ≢ []
unfolding decimal_from
decimal_from-ne-nil zero n acc h = absurd (omega arith)
decimal_from-ne-nil (suc fuel) n acc h = elim (Bool-cases (ltb n 10)) [
  | inl small ↦ rw small (λ e. ground arith)
  | inr large ↦ rw large (decimal_from-ne-nil fuel (n / 10) ((48 + n % 10) ∷ acc) (ground arith))
]

pub decimal-ne-nil : (n : ℕ) → decimal n ≢ []
unfolding decimal
decimal-ne-nil n = decimal_from-ne-nil (suc n) n [] (omega arith)
