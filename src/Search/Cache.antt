-- ===== src/Search/Cache.antt =====
-- web/src/routes/api/youtube-search/+server.ts, `cacheKey` and `setCache`: the result cache.
use radio_jockey.Base.{
  ℕ, ◌*◌, Option, none, some, List, [], ◌∷◌, ◌++◌, Text, Dict, insert, erase, leb, if◌then◌else◌,
  length,
}

-- web/src/lib/youtube.ts.
pub record SearchResult : Type 0 where
  pub video_id : Text
  pub title : Text
  pub channel_title : Text
  pub thumbnail_url : Text

pub record CacheEntry : Type 0 where
  pub results : List SearchResult
  pub next_page_token : Option Text
  pub prev_page_token : Option Text
  pub expires_at : ℕ

abbrev pub Cache : Type 0
Cache = Dict CacheEntry

abbrev pub cache_ttl_ms : ℕ
cache_ttl_ms = 24 * 60 * 60 * 1000

abbrev pub cache_max_entries : ℕ
cache_max_entries = 1000

-- `pageToken ?? ''`.
abbrev pub or_empty : Option Text → Text
or_empty none = []
or_empty (some t) = t

-- `lower` is `String.prototype.toLowerCase`, whose Unicode tables are the runtime's.
module _ (lower : Text → Text) where
  unfoldable pub cache_key : Text → Option Text → Text
  cache_key q page_token = lower q ++ b':' ∷ b':' ∷ or_empty page_token

-- `cache.keys().next().value`, and its deletion.
abbrev pub drop_oldest : Cache → Cache
drop_oldest [] = []
drop_oldest ((oldest_key, entry) ∷ m) = erase oldest_key ((oldest_key, entry) ∷ m)

unfoldable pub set_cache : Text → CacheEntry → Cache → Cache
set_cache key entry cache =
    insert key entry (if leb cache_max_entries (length cache) then drop_oldest cache else cache)
