-- ===== src/Search/Bounds.antt =====
-- web/src/routes/api/youtube-search/+server.ts, `setCache`: the size of the cache and its contents.
use radio_jockey.Base.{
  ◌≤◌, ◌<◌, Option, none, some, [], ◌∷◌, ◌++◌, Text, lookup, erase, leb, if◌then◌else◌, ◌≡◌, refl,
  ◌∙◌, ap, arith, length, HasDistinctKeys, Lacks, insert-HasDistinctKeys, length-insert,
  text_eq_refl, text_eq_iff, lookup-insert, lookup-insert_self, insert_new, ◌≢◌,
  erase-HasDistinctKeys, length-erase, lookup-erase, Lacks-erase, erase_of_Lacks, if-intro,
}
use radio_jockey.Search.Cache.{Cache, CacheEntry, set_cache, drop_oldest, cache_max_entries}

-- No key stands twice, and there are at most `CACHE_MAX_ENTRIES` entries.
pub record IsValid (cache : Cache) : Type 0 where
  pub distinct : HasDistinctKeys cache
  pub bounded : length cache ≤ cache_max_entries

-- What `setCache` keeps: all but the oldest entry of a full cache.
abbrev pub kept : Cache → Cache
kept cache = if leb cache_max_entries (length cache) then drop_oldest cache else cache

full_lem : (k : Text) (e : CacheEntry) (m : Cache) → drop_oldest ((k, e) ∷ m) ≡ erase k m
unfolding erase
full_lem k e m = rw text_eq_refl

kept_cons :
    (P : Cache → Type 0) (k : Text) (e : CacheEntry) (m : Cache)
    → P (erase k m)
    → P ((k, e) ∷ m)
    → P (kept ((k, e) ∷ m))
kept_cons P k e m p q =
    if-intro P (leb cache_max_entries (length ((k, e) ∷ m))) (λ _. rw full_lem p) (λ _. q)

kept-HasDistinctKeys : (cache : Cache) → HasDistinctKeys cache → HasDistinctKeys (kept cache)
kept-HasDistinctKeys [] h = h
kept-HasDistinctKeys ((k, e) ∷ m) (a, h) =
    kept_cons HasDistinctKeys k e m (erase-HasDistinctKeys k m h) (a, h)

length-kept :
    (cache : Cache) → length cache ≤ cache_max_entries → length (kept cache) < cache_max_entries
length-kept [] h = omega arith
length-kept ((k, e) ∷ m) h =
    if-intro (λ c. length c < cache_max_entries) (leb cache_max_entries (length ((k, e) ∷ m)))
      (λ full. rw full_lem (omega (arith, length-erase k m, h))) (λ free. ground arith)

-- Storing an entry in a cache that holds no key twice and at most 1000 entries gives such a cache
-- again.
pub set_cache-IsValid :
    (key : Text) (entry : CacheEntry) (cache : Cache)
    → IsValid cache
    → IsValid (set_cache key entry cache)
unfolding set_cache
set_cache-IsValid key entry cache v = record {
  distinct = insert-HasDistinctKeys key entry (kept cache) (kept-HasDistinctKeys cache v.distinct);
  bounded = omega (arith, length-insert key entry (kept cache), length-kept cache v.bounded);
}

pub erase-IsValid : (key : Text) (cache : Cache) → IsValid cache → IsValid (erase key cache)
erase-IsValid key cache v = record {
  distinct = erase-HasDistinctKeys key cache v.distinct;
  bounded = omega (arith, length-erase key cache, v.bounded);
}

pub lookup-set_cache_self :
    (key : Text) (entry : CacheEntry) (cache : Cache)
    → lookup key (set_cache key entry cache) ≡ some entry
unfolding set_cache
lookup-set_cache_self key entry cache = lookup-insert_self key entry (kept cache)

abbrev pub oldest_key : Cache → Option Text
oldest_key [] = none
oldest_key ((k, e) ∷ m) = some k

lookup-kept :
    (j : Text) (cache : Cache) → oldest_key cache ≢ some j → lookup j (kept cache) ≡ lookup j cache
unfolding lookup
lookup-kept j [] h = refl
lookup-kept j ((k, e) ∷ m) h =
    kept_cons (λ c. lookup j c ≡ lookup j ((k, e) ∷ m)) k e m
      (ground (arith, text_eq_iff k j, lookup-erase k j m)) refl

-- Storing under one key leaves what is found under another key as it was, if that other key is not
-- the oldest of the cache.
pub lookup-set_cache_ne :
    (key j : Text) (entry : CacheEntry) (cache : Cache)
    → key ≢ j
    → oldest_key cache ≢ some j
    → lookup j (set_cache key entry cache) ≡ lookup j cache
unfolding set_cache
lookup-set_cache_ne key j entry cache ne old =
    ground
      (arith, lookup-insert key j entry (kept cache), text_eq_iff key j, lookup-kept j cache old)

pub lookup-set_cache_free :
    (key j : Text) (entry : CacheEntry) (cache : Cache)
    → key ≢ j
    → length cache < cache_max_entries
    → lookup j (set_cache key entry cache) ≡ lookup j cache
unfolding set_cache
lookup-set_cache_free key j entry cache ne free =
    ground (arith, lookup-insert key j entry cache, text_eq_iff key j)

Lacks-kept : (j : Text) (cache : Cache) → Lacks j cache → Lacks j (kept cache)
Lacks-kept j [] h = tt
Lacks-kept j ((k, e) ∷ m) (a, h) = kept_cons (Lacks j) k e m (Lacks-erase j k m h) (a, h)

-- In a cache that is not empty and holds no key twice, a key that is new is stored behind the
-- others, and the first entry leaves if there are 1000 already.
pub set_cache_new :
    (key : Text) (entry : CacheEntry) (oldest : Text × CacheEntry) (cache : Cache)
    → HasDistinctKeys (oldest ∷ cache)
    → Lacks key (oldest ∷ cache)
    → set_cache key entry (oldest ∷ cache)
      ≡ (if leb cache_max_entries (length (oldest ∷ cache)) then cache else oldest ∷ cache)
        ++ (key, entry) ∷ []
unfolding set_cache
set_cache_new key entry (k, e) cache (absent, distinct) h =
    let dropped : drop_oldest ((k, e) ∷ cache) ≡ cache =
      full_lem k e cache ∙ erase_of_Lacks k cache absent in
    insert_new key entry (kept ((k, e) ∷ cache)) (Lacks-kept key ((k, e) ∷ cache) h)
    ∙ ap
        (λ m.
          (if leb cache_max_entries (length ((k, e) ∷ cache)) then m else (k, e) ∷ cache)
          ++ (key, entry) ∷ [])
        dropped
