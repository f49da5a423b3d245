-- ===== src/Search/Keeps.antt =====
-- web/src/routes/api/youtube-search/+server.ts, `GET`: what its two halves preserve of the cache.
use radio_jockey.Base.{
  ℕ, Option, none, some, List, Text, lookup, erase, ◌≡◌, ltb, Bool-cases, Option-cases, inl, inr,
  Outcome, ok, thrown,
}
use radio_jockey.Search.Cache.{Cache, SearchResult, cache_key, set_cache}
use radio_jockey.Search.Handler.{
  Env, query_of, request, look_up, begin, finish, resume, get, youtube_params, results_of, store,
  on_results, on_accepted, on_refused,
}
use radio_jockey.Search.Responses.{Upstream, nonempty_text, is_ok, items_of, YouTubeSearchResponse}
use radio_jockey.Search.Entities.{SearchError}
use radio_jockey.Search.Replies.{entry_at}

module _ (env : Env) where
  -- What the deletion under the key of the request preserves, the look-up preserves.
  pub look_up-keeps :
      (P : Cache → Type 0) (now : ℕ) (q : Text) (page_token : Option Text) (cache : Cache)
      → ((c : Cache) → P c → P (erase (cache_key env.lower q page_token) c))
      → P cache
      → P (look_up env now q page_token cache).1
  unfolding look_up
  look_up-keeps P now q page_token cache kept h =
      elim (Option-cases (lookup (cache_key env.lower q page_token) cache)) [
        | inl missing ↦ rw (missing, look_up) h
        | inr (entry, found) ↦ elim (Bool-cases (ltb now entry.expires_at)) [
          | inl live ↦ rw (found, look_up) (rw live h)
          | inr expired ↦ rw (found, look_up) (rw expired (kept cache h))
        ]
      ]

  -- What every deletion preserves, the first half of a request preserves.
  pub begin-keeps :
      (P : Cache → Type 0)
      → ((k : Text) (c : Cache) → P c → P (erase k c))
      → (now : ℕ) (q page_token : Option Text) (cache : Cache) → P cache
      → P (begin env now q page_token cache).1
  unfolding begin
  begin-keeps P kept now q page_token cache h = elim (Option-cases (query_of q)) [
    | inl missing ↦ rw (missing, begin) h
    | inr (query, asked) ↦
        rw (asked, begin)
          (look_up-keeps P now query page_token cache (kept (cache_key env.lower query page_token))
            h)
  ]

  -- What holds before the second half and what storing a page under the key makes of it.
  module _ (P Q : Cache → Type 0) (weaken : (c : Cache) → P c → Q c) (now : ℕ) (key : Text)
      (kept_by_set : (results : List SearchResult) (next prev : Option Text) (c : Cache)
        → P c
        → Q (set_cache key (entry_at now results next prev) c)) where
    on_accepted-keeps :
        (cache : Cache) (body : Option YouTubeSearchResponse)
        → P cache
        → Q (on_accepted env key now cache body).1
    unfolding on_accepted store
    on_accepted-keeps cache none h = weaken cache h
    on_accepted-keeps cache (some response) h = by_results (results_of env (items_of response))
      where
        by_results :
            (r : Outcome SearchError (List SearchResult))
            → Q (on_results key now response cache r).1
        by_results (thrown e) = weaken cache h
        by_results (ok results) = kept_by_set results _ _ cache h

    on_refused-keeps :
        (status : ℕ) (cache : Cache) (body : Option Text)
        → P cache
        → Q (on_refused env status cache body).1
    unfolding on_refused
    on_refused-keeps status cache none h = weaken cache h
    on_refused-keeps status cache (some t) h = weaken cache h

    pub finish_key-keeps :
        (upstream : Option Upstream) (cache : Cache)
        → P cache
        → Q (finish env key upstream now cache).1
    unfolding finish
    finish_key-keeps none cache h = weaken cache h
    finish_key-keeps (some res) cache h = elim (Bool-cases (is_ok res.status)) [
      | inl good ↦ rw good (on_accepted-keeps cache res.body_json h)
      | inr bad ↦ rw bad (on_refused-keeps res.status cache res.body_text h)
    ]

  pub finish-keeps :
      (P : Cache → Type 0) (now : ℕ)
      → ((k : Text) (results : List SearchResult) (next prev : Option Text) (c : Cache)
          → P c
          → P (set_cache k (entry_at now results next prev) c))
      → (key : Text) (upstream : Option Upstream) (cache : Cache) → P cache
      → P (finish env key upstream now cache).1
  finish-keeps P now kept key upstream cache h =
      finish_key-keeps P P (λ c k. k) now key (kept key) upstream cache h

  -- What holds before a request, through a deletion under its key, and what storing a page under
  -- that key makes of it.
  module _ (P Q : Cache → Type 0) (weaken : (c : Cache) → P c → Q c) (ended : ℕ) (query : Text)
      (page_token : Option Text)
      (erased : (c : Cache) → P c → P (erase (cache_key env.lower query page_token) c))
      (stored : (results : List SearchResult) (next prev : Option Text) (c : Cache)
        → P c
        → Q (set_cache (cache_key env.lower query page_token) (entry_at ended results next prev) c))
      (youtube : List (Text × Text) → Option Upstream) where
    request-keeps :
        (cache : Cache)
        → P cache
        → Q
            (resume env youtube ended
              (request env query page_token (cache_key env.lower query page_token), cache)).1
    unfolding request resume
    request-keeps cache h = elim (Option-cases (nonempty_text env.api_key)) [
      | inl absent ↦ rw (absent, request, resume) (weaken cache h)
      | inr (api_key, present) ↦
          rw (present, request, resume)
            (finish_key-keeps P Q weaken ended (cache_key env.lower query page_token) stored
              (youtube (youtube_params query api_key page_token)) cache h)
    ]

    looked_up-keeps :
        (started : ℕ) (cache : Cache)
        → P cache
        → Q (resume env youtube ended (look_up env started query page_token cache)).1
    unfolding look_up resume
    looked_up-keeps started cache h =
        elim (Option-cases (lookup (cache_key env.lower query page_token) cache)) [
          | inl missing ↦ rw (missing, look_up) (request-keeps cache h)
          | inr (entry, found) ↦ elim (Bool-cases (ltb started entry.expires_at)) [
            | inl live ↦ rw (found, look_up) (rw live (weaken cache h))
            | inr expired ↦
                rw (found, look_up)
                  (rw expired (
                    request-keeps (erase (cache_key env.lower query page_token) cache)
                      (erased cache h)))
          ]
        ]

    pub get-keeps :
        (started : ℕ) (q : Option Text) (cache : Cache)
        → query_of q ≡ some query
        → P cache
        → Q (get env started ended q page_token youtube cache).1
    unfolding get begin
    get-keeps started q cache asked h = rw (asked, begin) (looked_up-keeps started cache h)
