-- ===== src/Web/Sets.antt =====
-- web/src: a `Set` of keys, as the pages use it to mark the entries whose button waits. Only what it
-- has matters; a key that is added twice is still one.
use radio_jockey.Base.{
  ℕ, Bool, true, false, List, [], ◌∷◌, Text, text_eq, text_eq_iff, ◌==◌, ==_iff, if◌then◌else◌, ◌≡◌,
  ◌↔◌, refl, arith, ℤ, pos, negsuc,
}

-- A type whose values the program compares by `===`.
pub record Key (A : Type 0) : Type 0 where
  pub same : A → A → Bool
  pub same_iff : (a b : A) → (same a b ≡ true) ↔ (a ≡ b)

instance abbrev pub text_key : Key Text
text_key = record { same = text_eq; same_iff = text_eq_iff }

instance abbrev pub nat_key : Key ℕ
nat_key = record { same = λ a b. a == b; same_iff = ==_iff }

abbrev pub same_ℤ : ℤ → ℤ → Bool
same_ℤ (pos a) (pos b) = a == b
same_ℤ (negsuc a) (negsuc b) = a == b
same_ℤ _ _ = false

pub same_ℤ_iff : (a b : ℤ) → (same_ℤ a b ≡ true) ↔ (a ≡ b)
same_ℤ_iff (pos a) (pos b) = ground arith
same_ℤ_iff (pos a) (negsuc b) = ground arith
same_ℤ_iff (negsuc a) (pos b) = ground arith
same_ℤ_iff (negsuc a) (negsuc b) = ground arith

instance abbrev pub int_key : Key ℤ
int_key = record { same = same_ℤ; same_iff = same_ℤ_iff }

module _ {A : Type 0} ⦃key : Key A⦄ where
  unfoldable pub has_key : A → List A → Bool
  has_key a [] = false
  has_key a (b ∷ bs) = if key.same b a then true else has_key a bs

  -- `new Set(s).add(a)`.
  unfoldable pub add_key : A → List A → List A
  add_key a bs = a ∷ bs

  -- `s.delete(a)`.
  unfoldable pub delete_key : A → List A → List A
  delete_key a [] = []
  delete_key a (b ∷ bs) = let rest = delete_key a bs in if key.same b a then rest else b ∷ rest

  pub has_key-add_key :
      (a b : A) (bs : List A)
      → has_key b (add_key a bs) ≡ (if key.same a b then true else has_key b bs)
  unfolding has_key add_key
  has_key-add_key a b bs = refl

  pub has_key-delete_key :
      (a b : A) (bs : List A)
      → has_key b (delete_key a bs) ≡ (if key.same a b then false else has_key b bs)
  unfolding has_key delete_key
  has_key-delete_key a b [] = ground arith
  has_key-delete_key a b (c ∷ bs) =
      ground
        (arith, has_key-delete_key a b bs, key.same_iff a b, key.same_iff c a, key.same_iff c b)
