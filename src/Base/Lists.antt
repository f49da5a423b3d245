-- ===== src/Base/Lists.antt =====
-- Lists measured by native numbers, and predicates by recursion on a list.
use Prim.Native.Nat.{ℕ, zero, suc, ◌+◌}
use mathlib.Core.Path.{◌≡◌, refl, ap, ap₂, sym, subst}
use mathlib.Core.Logic.{◌≢◌}
use mathlib.Core.Option.{Option, none, some}
use mathlib.Core.List.{List, [], ◌∷◌, ◌++◌, map, head-eq_of_cons-eq, tail-eq_of_cons-eq}
use native.Mathlib.Omega.{arith}

module _ {ℓ} {A : Type ℓ} where
  abbrev pub length : List A → ℕ
  length [] = 0
  length (x ∷ xs) = suc (length xs)

  abbrev pub get_elem? : List A → ℕ → Option A
  get_elem? [] i = none
  get_elem? (x ∷ xs) zero = some x
  get_elem? (x ∷ xs) (suc i) = get_elem? xs i

  abbrev pub take : ℕ → List A → List A
  take zero xs = []
  take (suc n) [] = []
  take (suc n) (x ∷ xs) = x ∷ take n xs

  pub length-append : (xs ys : List A) → length (xs ++ ys) ≡ length xs + length ys
  length-append [] ys = omega arith
  length-append (x ∷ xs) ys = omega (arith, length-append xs ys)

pub length-map {ℓ κ} :
    {A : Type ℓ} {B : Type κ} (f : A → B) (xs : List A) → length (map f xs) ≡ length xs
length-map f [] = refl
length-map f (x ∷ xs) = ap suc (length-map f xs)

module _ {ℓ κ} {A : Type ℓ} (P : A → Type κ) where
  abbrev pub All : List A → Type κ
  All [] = Unit
  All (x ∷ xs) = P x × All xs

  pub All-append : (xs ys : List A) → All xs → All ys → All (xs ++ ys)
  All-append [] ys h k = k
  All-append (x ∷ xs) ys (p, h) k = (p, All-append xs ys h k)

module _ {ℓ} {A : Type ℓ} where
  absent_middle : (sep : A) (ys vs : List A) → All (λ a. a ≢ sep) (ys ++ sep ∷ vs) → ⊥
  absent_middle sep [] vs (p, _) = p refl
  absent_middle sep (y ∷ ys) vs (_, h) = absent_middle sep ys vs h

  -- The part before the last separator, and the part behind it, are determined by the joined list.
  pub append_sep_inj :
      (sep : A) (xs ys us vs : List A)
      → All (λ a. a ≢ sep) us
      → All (λ a. a ≢ sep) vs
      → xs ++ sep ∷ us ≡ ys ++ sep ∷ vs
      → (xs ≡ ys) × (us ≡ vs)
  append_sep_inj sep [] [] us vs h k e = (refl, tail-eq_of_cons-eq e)
  append_sep_inj sep [] (y ∷ ys) us vs h k e =
      absurd (absent_middle sep ys vs (subst (All (λ a. a ≢ sep)) (tail-eq_of_cons-eq e) h))
  append_sep_inj sep (x ∷ xs) [] us vs h k e =
      absurd (absent_middle sep xs us (subst (All (λ a. a ≢ sep)) (sym (tail-eq_of_cons-eq e)) k))
  append_sep_inj sep (x ∷ xs) (y ∷ ys) us vs h k e =
      let (same, rest) = append_sep_inj sep xs ys us vs h k (tail-eq_of_cons-eq e) in
      (ap₂ ◌∷◌ (head-eq_of_cons-eq e) same, rest)
