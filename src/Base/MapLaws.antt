-- ===== src/Base/MapLaws.antt =====
-- What reads and writes of an insertion-ordered map determine.
use Prim.Native.Nat.{◌+◌, ◌≤◌}
use mathlib.Core.Path.{◌≡◌, refl, ap, ◌∙◌}
use mathlib.Core.Logic.{inl, inr}
use mathlib.Core.Bool.{false}
use mathlib.Core.Option.{none, some}
use mathlib.Core.List.{[], ◌∷◌, ◌++◌}
use native.Mathlib.Omega.{arith}
use radio_jockey.Base.Tests.{if◌then◌else◌, Bool-cases}
use radio_jockey.Base.Lists.{length}
use radio_jockey.Base.Texts.{Text, text_eq, text_eq_iff, text_eq_refl, text_eq_comm}
use radio_jockey.Base.Maps.{Dict, lookup, insert, erase, has, Lacks, HasDistinctKeys}

module _ {ℓ} {V : Type ℓ} where
  pub lookup-insert :
      (k j : Text) (v : V) (m : Dict V)
      → lookup j (insert k v m) ≡ (if text_eq k j then some v else lookup j m)
  unfolding lookup insert
  lookup-insert k j v [] = refl
  lookup-insert k j v ((i, w) ∷ m) =
      ground (arith, text_eq_iff k j, text_eq_iff i k, text_eq_iff i j, lookup-insert k j v m)

  pub lookup-insert_self : (k : Text) (v : V) (m : Dict V) → lookup k (insert k v m) ≡ some v
  lookup-insert_self k v m = simp (lookup-insert, text_eq_refl)

  pub lookup_of_Lacks : (k : Text) (m : Dict V) → Lacks k m → lookup k m ≡ none
  unfolding lookup
  lookup_of_Lacks k [] h = refl
  lookup_of_Lacks k ((i, w) ∷ m) (e, h) = rw e (lookup_of_Lacks k m h)

  pub Lacks-of_lookup : (k : Text) (m : Dict V) → lookup k m ≡ none → Lacks k m
  unfolding lookup
  Lacks-of_lookup k [] h = tt
  Lacks-of_lookup k ((i, w) ∷ m) h = ground (arith, Lacks-of_lookup k m)

  Lacks-insert :
      (j k : Text) (v : V) (m : Dict V) → text_eq k j ≡ false → Lacks j m → Lacks j (insert k v m)
  unfolding insert
  Lacks-insert j k v [] e h = (e, tt)
  Lacks-insert j k v ((i, w) ∷ m) e (f, h) = ground (arith, Lacks-insert j k v m e h)

  pub insert-HasDistinctKeys :
      (k : Text) (v : V) (m : Dict V) → HasDistinctKeys m → HasDistinctKeys (insert k v m)
  unfolding insert
  insert-HasDistinctKeys k v [] h = (tt, tt)
  insert-HasDistinctKeys k v ((i, w) ∷ m) (a, h) = elim (Bool-cases (text_eq i k)) [
    | inl same ↦ rw same (a, h)
    | inr other ↦
        rw other (Lacks-insert i k v m (text_eq_comm k i ∙ other) a, insert-HasDistinctKeys k v m h)
  ]

  pub Lacks-erase : (j k : Text) (m : Dict V) → Lacks j m → Lacks j (erase k m)
  unfolding erase
  Lacks-erase j k [] h = tt
  Lacks-erase j k ((i, w) ∷ m) (f, h) = ground (arith, Lacks-erase j k m h)

  pub erase-HasDistinctKeys :
      (k : Text) (m : Dict V) → HasDistinctKeys m → HasDistinctKeys (erase k m)
  unfolding erase
  erase-HasDistinctKeys k [] h = tt
  erase-HasDistinctKeys k ((i, w) ∷ m) (a, h) =
      ground (arith, Lacks-erase i k m a, erase-HasDistinctKeys k m h)

  -- A deleted key is gone, and every other key keeps its value.
  pub lookup-erase :
      (k j : Text) (m : Dict V) → lookup j (erase k m) ≡ (if text_eq k j then none else lookup j m)
  unfolding lookup erase
  lookup-erase k j [] = ground arith
  lookup-erase k j ((i, w) ∷ m) =
      ground (arith, text_eq_iff k j, text_eq_iff i k, text_eq_iff i j, lookup-erase k j m)

  pub lookup-erase_self : (k : Text) (m : Dict V) → lookup k (erase k m) ≡ none
  lookup-erase_self k m = simp (lookup-erase, text_eq_refl)

  pub erase_of_Lacks : (k : Text) (m : Dict V) → Lacks k m → erase k m ≡ m
  unfolding erase
  erase_of_Lacks k [] h = refl
  erase_of_Lacks k ((i, w) ∷ m) (e, h) = rw e (ap (λ t. (i, w) ∷ t) (erase_of_Lacks k m h))

  pub has-lookup : (k : Text) (m : Dict V) → (has k m ≡ false) → lookup k m ≡ none
  unfolding has lookup
  has-lookup k [] h = refl
  has-lookup k ((i, w) ∷ m) h = ground (arith, has-lookup k m)

  pub lookup-has : (k : Text) (m : Dict V) → lookup k m ≡ none → has k m ≡ false
  unfolding has lookup
  lookup-has k [] h = refl
  lookup-has k ((i, w) ∷ m) h = ground (arith, lookup-has k m)

  pub length-insert : (k : Text) (v : V) (m : Dict V) → length (insert k v m) ≤ length m + 1
  unfolding insert
  length-insert k v [] = omega arith
  length-insert k v ((i, w) ∷ m) = ground (arith, length-insert k v m)

  pub length-erase : (k : Text) (m : Dict V) → length (erase k m) ≤ length m
  unfolding erase
  length-erase k [] = omega arith
  length-erase k ((i, w) ∷ m) = ground (arith, length-erase k m)

  -- A new key goes to the end.
  pub insert_new : (k : Text) (v : V) (m : Dict V) → Lacks k m → insert k v m ≡ m ++ (k, v) ∷ []
  unfolding insert
  insert_new k v [] h = refl
  insert_new k v ((i, w) ∷ m) (e, h) = rw e (ap (λ t. (i, w) ∷ t) (insert_new k v m h))
