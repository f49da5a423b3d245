-- ===== src/Search/Handler.antt =====
-- web/src/routes/api/youtube-search/+server.ts: the request handler `GET`. It
-- waits at the call of YouTube, and other requests run meanwhile, so it is two steps over the
-- shared cache: `begin` up to the call, `finish` from the response on; `get` is the two in one.
use radio_jockey.Base.{
  ℕ, ◌+◌, true, false, ◌||◌, ◌&&◌, Option, none, some, List, [], ◌∷◌, Text, text, lookup, erase,
  ltb, ◌==◌, if◌then◌else◌, Outcome, ok, thrown, ◌>>=◌,
}
use radio_jockey.Search.Entities.{SearchError, fetch_failed, body_unreadable, decode_html_entities}
use radio_jockey.Search.Trimming.{trim}
use radio_jockey.Search.Responses.{
  YouTubeSearchItem, YouTubeSearchResponse, Upstream, Reply, failure, page, nonempty_text, is_ok,
  video_id_of, url_of, items_of,
}
use radio_jockey.Search.Cache.{SearchResult, CacheEntry, Cache, cache_ttl_ms, cache_key, set_cache}
use radio_jockey.Search.Json.{Json, parse_error_reason, is_string}

-- What the runtime and the environment give.
pub record Env : Type 0 where
  pub lower : Text → Text
  pub inherited : Text → Option Text
  pub parse_json : Text → Option Json
  pub api_key : Option Text

-- How the first step ends: with a reply, or with a call of YouTube under a cache key.
pub data Begun : Type 0 where
  answered : Reply → Begun
  fetching : (key : Text) → (params : List (Text × Text)) → Begun

-- `url.searchParams.get('q')?.trim()`, `none` where it is falsy.
abbrev pub query_of : Option Text → Option Text
query_of none = none
query_of (some q) = nonempty_text (some (trim q))

abbrev pub token_param : Option Text → List (Text × Text)
token_param none = []
token_param (some t) = (text "pageToken", t) ∷ []

-- The search parameters of the call.
unfoldable pub youtube_params : Text → Text → Option Text → List (Text × Text)
youtube_params q api_key page_token =
    (text "part", text "snippet")
    ∷ (text "type", text "video")
    ∷ (text "videoCategoryId", text "10")
    ∷ (text "maxResults", text "3")
    ∷ (text "q", q)
    ∷ (text "key", api_key)
    ∷ token_param (nonempty_text page_token)

-- The two lines of the handler that reply from a live cache entry.
abbrev pub hit_reply : CacheEntry → Reply
hit_reply entry = page entry.results entry.next_page_token entry.prev_page_token true

-- The success path: the results are cached for a day and returned.
unfoldable pub store : Text → ℕ → YouTubeSearchResponse → List SearchResult → Cache → Reply × Cache
store key now response results cache = (
  page results response.next_page_token response.prev_page_token false,
  set_cache key
      (record {
        results = results;
        next_page_token = response.next_page_token;
        prev_page_token = response.prev_page_token;
        expires_at = now + cache_ttl_ms;
      })
      cache,
)

abbrev pub on_results :
    Text
    → ℕ
    → YouTubeSearchResponse
    → Cache
    → Outcome SearchError (List SearchResult)
    → Outcome SearchError Reply × Cache
on_results key now response cache (thrown e) = (thrown e, cache)
on_results key now response cache (ok results) =
    let (reply, cache') = store key now response results cache in (ok reply, cache')

module _ (env : Env) where
  -- From the check of the API key to the call.
  unfoldable pub request : Text → Option Text → Text → Begun
  request q page_token key = elim (nonempty_text env.api_key) [
    | none ↦ answered (failure 503 (text "search not configured"))
    | some api_key ↦ fetching key (youtube_params q api_key page_token)
  ]

  -- The cache is read, and an entry that has expired is deleted.
  unfoldable pub look_up : ℕ → Text → Option Text → Cache → Begun × Cache
  look_up now q page_token cache =
      let key = cache_key env.lower q page_token in
      elim (lookup key cache) [
        | none ↦ (request q page_token key, cache)
        | some cached ↦
            if ltb now cached.expires_at
            then (answered (hit_reply cached), cache)
            else (request q page_token key, erase key cache)
      ]

  unfoldable pub begin : ℕ → Option Text → Option Text → Cache → Begun × Cache
  begin now q page_token cache = elim (query_of q) [
    | none ↦ (answered (failure 400 (text "missing query")), cache)
    | some q' ↦ look_up now q' page_token cache
  ]

  -- The callback of the `map`, on an item with a video id.
  unfoldable pub result_of : Text → YouTubeSearchItem → Outcome SearchError SearchResult
  result_of video_id item = do
    title ← decode_html_entities env.inherited item.snippet.title
    channel_title ← decode_html_entities env.inherited item.snippet.channel_title
    ok (record {
      video_id = video_id;
      title = title;
      channel_title = channel_title;
      thumbnail_url = url_of item.snippet;
    })

  -- The `map` and the `filter` over the items, in one pass; the first `decodeHtmlEntities` that
  -- throws ends it.
  unfoldable pub results_of : List YouTubeSearchItem → Outcome SearchError (List SearchResult)
  results_of [] = ok []
  results_of (item ∷ items) = elim (video_id_of item) [
    | none ↦ results_of items
    | some video_id ↦ do
      result ← result_of video_id item
      rest ← results_of items
      ok (result ∷ rest)
  ]

  -- The branch `!res.ok`.
  unfoldable pub refusal : ℕ → Text → Reply
  refusal status error_text =
      let reason = parse_error_reason env.parse_json error_text in
      if status == 403
        && (is_string reason (text "quotaExceeded") || is_string reason (text "dailyLimitExceeded"))
      then failure 429 (text "quota exceeded")
      else failure 502 (text "search failed")

  -- After `res.ok`: the body is read as JSON.
  unfoldable pub on_accepted :
      Text → ℕ → Cache → Option YouTubeSearchResponse → Outcome SearchError Reply × Cache
  on_accepted key now cache none = (thrown body_unreadable, cache)
  on_accepted key now cache (some response) =
      on_results key now response cache (results_of (items_of response))

  -- After `!res.ok`: the body is read as text.
  unfoldable pub on_refused : ℕ → Cache → Option Text → Outcome SearchError Reply × Cache
  on_refused status cache none = (thrown body_unreadable, cache)
  on_refused status cache (some error_text) = (ok (refusal status error_text), cache)

  -- From the response of YouTube on; `none` is a `fetch` that rejects.
  unfoldable pub finish : Text → Option Upstream → ℕ → Cache → Outcome SearchError Reply × Cache
  finish key none now cache = (thrown fetch_failed, cache)
  finish key (some res) now cache =
      if is_ok res.status
      then on_accepted key now cache res.body_json
      else on_refused res.status cache res.body_text

  -- The handler goes on with the response, if it called YouTube.
  unfoldable pub resume :
      (List (Text × Text) → Option Upstream) → ℕ → Begun × Cache → Outcome SearchError Reply × Cache
  resume youtube now (answered reply, cache) = (ok reply, cache)
  resume youtube now (fetching key params, cache) = finish key (youtube params) now cache

  -- One request with no other in between: `started` and `ended` are the two readings of the clock.
  unfoldable pub get :
      (started ended : ℕ)
      → (q page_token : Option Text) → (List (Text × Text) → Option Upstream)
      → Cache
      → Outcome SearchError Reply × Cache
  get started ended q page_token youtube cache =
      resume youtube ended (begin started q page_token cache)
