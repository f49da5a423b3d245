-- ===== src/Base/Maps.antt =====
-- `Map` with string keys, in insertion order: a list of entries with distinct keys, oldest first.
use mathlib.Core.Path.{◌≡◌}
use mathlib.Core.Bool.{Bool, true, false}
use mathlib.Core.Option.{Option, none, some}
use mathlib.Core.List.{List, [], ◌∷◌}
use radio_jockey.Base.Tests.{if◌then◌else◌}
use radio_jockey.Base.Texts.{Text, text_eq}

abbrev pub Dict {ℓ} : Type ℓ → Type ℓ
Dict V = List (Text × V)

module _ {ℓ} {V : Type ℓ} where
  -- `m.get(k)`; `none` stands for undefined.
  unfoldable pub lookup : Text → Dict V → Option V
  lookup k [] = none
  lookup k ((j, v) ∷ m) = if text_eq j k then some v else lookup k m

  -- `m.set(k, v)`: a key that is present keeps its place.
  unfoldable pub insert : Text → V → Dict V → Dict V
  insert k v [] = (k, v) ∷ []
  insert k v ((j, w) ∷ m) = if text_eq j k then (j, v) ∷ m else (j, w) ∷ insert k v m

  -- `m.delete(k)`.
  unfoldable pub erase : Text → Dict V → Dict V
  erase k [] = []
  erase k ((j, w) ∷ m) = let rest = erase k m in if text_eq j k then rest else (j, w) ∷ rest

  -- `m.has(k)`.
  unfoldable pub has : Text → Dict V → Bool
  has k [] = false
  has k ((j, w) ∷ m) = if text_eq j k then true else has k m

  abbrev pub Lacks : Text → Dict V → Type ℓ
  Lacks k [] = Unit
  Lacks k ((j, w) ∷ m) = (text_eq j k ≡ false) × Lacks k m

  -- No key stands twice.
  abbrev pub HasDistinctKeys : Dict V → Type ℓ
  HasDistinctKeys [] = Unit
  HasDistinctKeys ((j, w) ∷ m) = Lacks j m × HasDistinctKeys m
