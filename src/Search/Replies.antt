-- ===== src/Search/Replies.antt =====
-- web/src/routes/api/youtube-search/+server.ts, `GET`: what a request is answered, and what it
-- leaves in the cache.
use radio_jockey.Base.{
  ℕ, ◌+◌, ◌<◌, true, false, Option, none, some, List, Text, lookup, erase, ltb, ◌≡◌, arith,
  Bool-cases, inl, inr, ok, Option-cases,
}
use radio_jockey.Search.Cache.{Cache, CacheEntry, SearchResult, cache_key, cache_ttl_ms}
use radio_jockey.Search.Bounds.{lookup-set_cache_self}
use radio_jockey.Search.Handler.{
  Env, query_of, hit_reply, request, look_up, begin, finish, resume, get, store, refusal,
  on_accepted, on_refused, youtube_params,
}
use radio_jockey.Search.Responses.{page, Upstream, nonempty_text}

-- The entry of a page that was stored at a time.
abbrev pub entry_at : ℕ → List SearchResult → (next prev : Option Text) → CacheEntry
entry_at now results next prev = record {
  results = results;
  next_page_token = next;
  prev_page_token = prev;
  expires_at = now + cache_ttl_ms;
}

module _ (env : Env) where
  -- A request with a query, for whose key the cache has an entry that is still to expire, is
  -- answered from the entry: YouTube is not asked, whatever it would say, and the cache stays as
  -- it is.
  pub get_hit :
      (started ended : ℕ) (q page_token : Option Text) (query : Text)
      (youtube : List (Text × Text) → Option Upstream) (cache : Cache) (entry : CacheEntry)
      → query_of q ≡ some query
      → lookup (cache_key env.lower query page_token) cache ≡ some entry
      → started < entry.expires_at
      → get env started ended q page_token youtube cache ≡ (ok (hit_reply entry), cache)
  unfolding get begin look_up resume
  get_hit started ended q page_token query youtube cache entry asked found live =
      let fresh : ltb started entry.expires_at ≡ true = ground arith in
      rw (asked, begin) (rw (found, look_up) (rw fresh))

  store_lem :
      (key : Text) (upstream : Option Upstream) (now : ℕ) (cache cache' : Cache)
      (results : List SearchResult) (next prev : Option Text)
      → finish env key upstream now cache ≡ (ok (page results next prev false), cache')
      → lookup key cache' ≡ some (entry_at now results next prev)
  unfolding finish on_accepted on_refused refusal store
  store_lem key none now cache cache' results next prev e = cc
  store_lem key (some res) now cache cache' results next prev e =
      ground (arith, lookup-set_cache_self key (entry_at now results next prev) cache)

  fresh_from_request :
      (q : Text) (page_token : Option Text) (key : Text)
      (youtube : List (Text × Text) → Option Upstream) (ended : ℕ) (cache cache' : Cache)
      (results : List SearchResult) (next prev : Option Text)
      → resume env youtube ended (request env q page_token key, cache)
        ≡ (ok (page results next prev false), cache')
      → lookup key cache' ≡ some (entry_at ended results next prev)
  unfolding request resume
  fresh_from_request q page_token key youtube ended cache cache' results next prev e =
      elim (Option-cases (nonempty_text env.api_key)) [
        | inl absent ↦ absurd (ground arith)
        | inr (api_key, present) ↦
            store_lem key (youtube (youtube_params q api_key page_token)) ended cache cache' results
              next prev (rw (present, request, resume) at e)
      ]

  fresh_from_look_up :
      (started ended : ℕ) (q : Text) (page_token : Option Text)
      (youtube : List (Text × Text) → Option Upstream) (cache cache' : Cache)
      (results : List SearchResult) (next prev : Option Text)
      → resume env youtube ended (look_up env started q page_token cache)
        ≡ (ok (page results next prev false), cache')
      → lookup (cache_key env.lower q page_token) cache' ≡ some (entry_at ended results next prev)
  unfolding look_up resume
  fresh_from_look_up started ended q page_token youtube cache cache' results next prev e =
      let key = cache_key env.lower q page_token in
      elim (Option-cases (lookup key cache)) [
        | inl missing ↦
            fresh_from_request q page_token key youtube ended cache cache' results next prev
              (rw (missing, look_up) at e)
        | inr (entry, found) ↦ elim (Bool-cases (ltb started entry.expires_at)) [
          | inl live ↦ absurd (ground (arith, e, found, live))
          | inr expired ↦
              fresh_from_request q page_token key youtube ended (erase key cache) cache' results
                next prev (rw expired at (rw (found, look_up) at e))
        ]
      ]

  pub fresh_from_get :
      (started ended : ℕ) (q page_token : Option Text) (query : Text)
      (youtube : List (Text × Text) → Option Upstream) (cache cache' : Cache)
      (results : List SearchResult) (next prev : Option Text)
      → query_of q ≡ some query
      → get env started ended q page_token youtube cache
        ≡ (ok (page results next prev false), cache')
      → lookup (cache_key env.lower query page_token) cache'
        ≡ some (entry_at ended results next prev)
  unfolding get begin
  fresh_from_get started ended q page_token query youtube cache cache' results next prev asked e =
      fresh_from_look_up started ended query page_token youtube cache cache' results next prev
        (rw (asked, begin) at e)

  -- If a request was answered by a page that YouTube gave it, then a request with the same page
  -- token, whose query has the same lower-case form, less than a day after that page was stored
  -- and with the cache as it was left, is answered by the same page with the mark `cached`,
  -- whatever YouTube would say, and leaves the cache as it is.
  pub get_repeated :
      (started ended again later : ℕ) (q q' page_token : Option Text) (query query' : Text)
      (youtube youtube' : List (Text × Text) → Option Upstream) (cache cache' : Cache)
      (results : List SearchResult) (next prev : Option Text)
      → query_of q ≡ some query
      → query_of q' ≡ some query'
      → env.lower query' ≡ env.lower query
      → again < ended + cache_ttl_ms
      → get env started ended q page_token youtube cache
        ≡ (ok (page results next prev false), cache')
      → get env again later q' page_token youtube' cache'
        ≡ (ok (page results next prev true), cache')
  unfolding cache_key
  get_repeated started ended again later q q' page_token query query' youtube youtube' cache cache'
        results next prev asked asked' same soon e =
      let found =
        fresh_from_get started ended q page_token query youtube cache cache' results next prev asked
          e in
      get_hit again later q' page_token query' youtube' cache' _ asked' (rw same found) soon
