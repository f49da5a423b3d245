-- ===== src/Search/Entries.antt =====
-- web/src/routes/api/youtube-search/+server.ts: what holds of every entry of the cache.
use radio_jockey.Base.{
  some, List, [], ◌∷◌, Text, lookup, insert, erase, text_eq, text_eq_iff, leb, length, ◌≡◌, arith,
  Bool-cases, if-intro, inl, inr, All,
}
use mathlib.Core.Path.{subst}
use radio_jockey.Search.Cache.{Cache, CacheEntry, set_cache, cache_max_entries}
use radio_jockey.Search.Bounds.{kept}

module _ (Q : Text × CacheEntry → Type 0) where
  pub All-erase : (k : Text) (cache : Cache) → All Q cache → All Q (erase k cache)
  unfolding erase
  All-erase k [] h = tt
  All-erase k ((j, e) ∷ m) (p, h) = elim (Bool-cases (text_eq j k)) [
    | inl same ↦ rw same (All-erase k m h)
    | inr other ↦ rw other (p, All-erase k m h)
  ]

  All-insert :
      (k : Text) (e : CacheEntry) (cache : Cache)
      → Q (k, e)
      → All Q cache
      → All Q (insert k e cache)
  unfolding insert
  All-insert k e [] q h = (q, tt)
  All-insert k e ((j, w) ∷ m) q (p, h) = elim (Bool-cases (text_eq j k)) [
    | inl same ↦
        let key : k ≡ j = ground (arith, text_eq_iff j k) in
        rw same (subst (λ i. Q (i, e)) key q, h)
    | inr other ↦ rw other (p, All-insert k e m q h)
  ]

  All-kept : (cache : Cache) → All Q cache → All Q (kept cache)
  All-kept [] h = h
  All-kept ((j, w) ∷ m) h =
      if-intro (All Q) (leb cache_max_entries (length ((j, w) ∷ m)))
        (λ full. All-erase j ((j, w) ∷ m) h) (λ free. h)

  pub All-set_cache :
      (k : Text) (e : CacheEntry) (cache : Cache)
      → Q (k, e)
      → All Q cache
      → All Q (set_cache k e cache)
  unfolding set_cache
  All-set_cache k e cache q h = All-insert k e (kept cache) q (All-kept cache h)

  pub All-lookup :
      (k : Text) (cache : Cache) (e : CacheEntry) → All Q cache → lookup k cache ≡ some e → Q (k, e)
  unfolding lookup
  All-lookup k [] e h found = cc
  All-lookup k ((j, w) ∷ m) e (p, h) found = elim (Bool-cases (text_eq j k)) [
    | inl same ↦
        let key : j ≡ k = ground (arith, text_eq_iff j k) in
        let entry : w ≡ e = ground arith in
        subst (λ i. Q (i, e)) key (subst (λ x. Q (j, x)) entry p)
    | inr other ↦ All-lookup k m e h (ground arith)
  ]

pub All-map :
    {A : Type 0} (P Q : A → Type 0) → ((a : A) → P a → Q a) → (xs : List A) → All P xs → All Q xs
All-map P Q f [] h = tt
All-map P Q f (x ∷ xs) (p, h) = (f x p, All-map P Q f xs h)
