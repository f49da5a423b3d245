-- ===== src/Search/Interleavings.antt =====
-- web/src/routes/api/youtube-search/+server.ts: many requests over the one cache. A request runs
-- up to its call of YouTube without interruption, and from the response on; anything may run in
-- between.
use radio_jockey.Base.{
  ℕ, ◌+◌, ◌≤◌, ◌<◌, true, Option, none, some, List, [], ◌∷◌, ◌++◌, Text, lookup, ltb, ◌≡◌, ◌≢◌,
  refl, sym, ap, arith, Bool-cases, Option-cases, inl, inr, All,
}
use radio_jockey.Search.Cache.{Cache, CacheEntry, SearchResult, cache_key, cache_ttl_ms}
use radio_jockey.Search.Bounds.{IsValid, set_cache-IsValid, erase-IsValid}
use radio_jockey.Search.Handler.{
  Env, Begun, answered, fetching, query_of, request, look_up, begin, finish, hit_reply,
}
use radio_jockey.Search.Responses.{Reply, page, Upstream}
use mathlib.Core.Path.{subst}
use radio_jockey.Search.Keeps.{begin-keeps, finish-keeps}
use radio_jockey.Search.Entries.{All-erase, All-set_cache, All-lookup}
use radio_jockey.Search.Responses.{YouTubeSearchResponse}

-- The clock, the cache, and the keys under which responses are awaited. `given` is no variable of the
-- program: it lists the bodies that YouTube has given so far, with those keys.
pub record System : Type 0 where
  pub now : ℕ
  pub cache : Cache
  pub pending : List Text
  pub given : List (Text × YouTubeSearchResponse)

abbrev pub after_begin : System → Begun × Cache → System
after_begin s (answered reply, cache) = record s { cache = cache }
after_begin s (fetching key params, cache) = record s { cache = cache; pending = key ∷ s.pending }

abbrev pub body_of : Text → Option YouTubeSearchResponse → List (Text × YouTubeSearchResponse)
body_of key none = []
body_of key (some body) = (key, body) ∷ []

abbrev pub given_by : Text → Option Upstream → List (Text × YouTubeSearchResponse)
given_by key none = []
given_by key (some res) = body_of key res.body_json

-- No entry outlives the day that it was stored for.
abbrev pub IsRecent : ℕ → Cache → Type 0
IsRecent now cache = All (λ e. e.1.expires_at ≤ now + cache_ttl_ms) cache

later-IsRecent : (now d : ℕ) (cache : Cache) → IsRecent now cache → IsRecent (now + d) cache
later-IsRecent now d [] h = tt
later-IsRecent now d (e ∷ m) (p, h) = (omega arith, later-IsRecent now d m h)

answered-injective : {r r' : Reply} → answered r ≡ answered r' → r ≡ r'
answered-injective e = cc

pub after_begin-cache :
    (s : System) (r : Begun × Cache) (P : Cache → Type 0) → P r.1 → P (after_begin s r).cache
after_begin-cache s (answered reply, cache) P h = h
after_begin-cache s (fetching key params, cache) P h = h

after_begin-now : (s : System) (r : Begun × Cache) → (after_begin s r).now ≡ s.now
after_begin-now s (answered reply, cache) = refl
after_begin-now s (fetching key params, cache) = refl

module _ (env : Env) where
  -- Time passes, a request arrives, or YouTube answers one that waits.
  pub data Step : System → System → Type 0 where
    tick : (s : System) (d : ℕ) → Step s (record s { now = s.now + d })
    arrive :
        (s : System) (q page_token : Option Text)
        → Step s (after_begin s (begin env s.now q page_token s.cache))
    respond :
        (s : System) (before after : List Text) (key : Text) (upstream : Option Upstream)
        → s.pending ≡ before ++ key ∷ after
        → Step s (record s {
          cache = (finish env key upstream s.now s.cache).1;
          pending = before ++ after;
          given = given_by key upstream ++ s.given;
        })

  pub data Reach (s : System) : System → Type 0 where
    here : Reach s s
    step : {t u : System} → Reach s t → Step t u → Reach s u

  Step-IsValid : {s t : System} → Step s t → IsValid s.cache → IsValid t.cache
  Step-IsValid (tick s d) v = v
  Step-IsValid (arrive s q page_token) v =
      after_begin-cache s (begin env s.now q page_token s.cache) IsValid
        (begin-keeps env IsValid erase-IsValid s.now q page_token s.cache v)
  Step-IsValid (respond s before after key upstream h) v =
      finish-keeps env IsValid s.now (λ k results next prev c. set_cache-IsValid k _ c) key upstream
        s.cache v

  Step-IsRecent : {s t : System} → Step s t → IsRecent s.now s.cache → IsRecent t.now t.cache
  Step-IsRecent (tick s d) v = later-IsRecent s.now d s.cache v
  Step-IsRecent (arrive s q page_token) v =
      let r = begin env s.now q page_token s.cache in
      subst (λ n. IsRecent n (after_begin s r).cache) (sym (after_begin-now s r))
        (after_begin-cache s r (IsRecent s.now) (
          begin-keeps env (IsRecent s.now) (All-erase (λ e. e.1.expires_at ≤ s.now + cache_ttl_ms))
            s.now q page_token s.cache v))
  Step-IsRecent (respond s before after key upstream h) v =
      finish-keeps env (IsRecent s.now) s.now
        (λ k results next prev c.
          All-set_cache (λ e. e.1.expires_at ≤ s.now + cache_ttl_ms) k _ c (omega arith))
        key upstream s.cache v

  -- The server starts with an empty cache and no request.
  abbrev pub start : ℕ → System
  start now = record { now = now; cache = []; pending = []; given = [] }

  -- However requests, responses and the clock interleave from an empty cache on, the cache holds
  -- no key twice and at most 1000 entries, and none that expires more than a day from now.
  pub Reach-IsValid :
      (now : ℕ) {t : System} → Reach (start now) t → IsValid t.cache × IsRecent t.now t.cache
  Reach-IsValid now here = (record { distinct = tt; bounded = omega arith }, tt)
  Reach-IsValid now (step r st) =
      let (valid, recent) = Reach-IsValid now r in (Step-IsValid st valid, Step-IsRecent st recent)

  request-ne-page :
      (q : Text) (page_token : Option Text) (key : Text) (results : List SearchResult)
      (next prev : Option Text)
      → request env q page_token key ≢ answered (page results next prev true)
  unfolding request
  request-ne-page q page_token key results next prev e = ground arith

  -- However requests, responses and the clock interleave from an empty cache on, a page that a
  -- request with a query is served with the mark `cached` is what the cache holds for the key of
  -- the query and the page token, in an entry that is still to expire and that expires no more
  -- than a day from now.
  pub served_recently :
      (now : ℕ) {t : System} (q page_token : Option Text) (query : Text)
      (results : List SearchResult) (next prev : Option Text) (cache : Cache)
      → Reach (start now) t
      → query_of q ≡ some query
      → begin env t.now q page_token t.cache ≡ (answered (page results next prev true), cache)
      → (e : CacheEntry) × (lookup (cache_key env.lower query page_token) t.cache ≡ some e)
        × (hit_reply e ≡ page results next prev true)
        × (t.now < e.expires_at)
        × (e.expires_at ≤ t.now + cache_ttl_ms)
  unfolding begin look_up
  served_recently now {t} q page_token query results next prev cache r asked e =
      let key = cache_key env.lower query page_token in
      let looked = rw (asked, begin) at e in
      let not_fetched = request-ne-page query page_token key results next prev in
      elim (Option-cases (lookup key t.cache)) [
        | inl missing ↦ absurd (not_fetched (ap (λ p. p.0) (rw (missing, look_up) at looked)))
        | inr (entry, found) ↦ elim (Bool-cases (ltb t.now entry.expires_at)) [
          | inl live ↦
              let same : hit_reply entry ≡ page results next prev true =
                answered-injective (ap (λ p. p.0) (rw live at (rw (found, look_up) at looked))) in
              let recent =
                All-lookup (λ e. e.1.expires_at ≤ t.now + cache_ttl_ms) key t.cache entry
                  (Reach-IsValid now r).1 found in
              (entry, found, same, ground arith, recent)
          | inr expired ↦
              absurd (not_fetched (ap (λ p. p.0) (rw expired at (rw (found, look_up) at looked))))
        ]
      ]
