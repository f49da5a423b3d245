-- ===== src/Search/Provenance.antt =====
-- web/src/routes/api/youtube-search/+server.ts: where the pages of the cache come from.
use radio_jockey.Base.{
  ℕ, true, Option, none, some, List, [], ◌∷◌, ◌++◌, Text, ◌≡◌, ◌⊎◌, inl, inr, refl, sym, ap, ◌∙◌,
  arith, Bool-cases, Outcome, ok, thrown, All,
}
use mathlib.Core.Path.{subst}
use radio_jockey.Search.Entities.{SearchError}
use radio_jockey.Search.Cache.{Cache, CacheEntry, SearchResult, cache_key}
use radio_jockey.Search.Responses.{Upstream, YouTubeSearchResponse, page, items_of, is_ok}
use radio_jockey.Search.Handler.{
  Begun, fetching, Env, query_of, begin, answered, finish, on_accepted, on_refused, on_results,
  store, results_of,
}
use radio_jockey.Search.Replies.{entry_at}
use radio_jockey.Search.Entries.{All-erase, All-set_cache, All-lookup, All-map}
use radio_jockey.Search.Keeps.{begin-keeps}
use radio_jockey.Search.Results.{Selects, results_of_iff}
use radio_jockey.Search.Interleavings.{
  System, Step, tick, arrive, respond, Reach, here, step, start, given_by, after_begin,
  after_begin-cache, served_recently,
}

abbrev pub IsIn : Text × YouTubeSearchResponse → List (Text × YouTubeSearchResponse) → Type 0
IsIn x [] = ⊥
IsIn x (y ∷ ys) = (x ≡ y) ⊎ IsIn x ys

IsIn-append_right :
    (x : Text × YouTubeSearchResponse) (xs ys : List (Text × YouTubeSearchResponse))
    → IsIn x ys
    → IsIn x (xs ++ ys)
IsIn-append_right x [] ys h = h
IsIn-append_right x (y ∷ xs) ys h = inr (IsIn-append_right x xs ys h)

module _ (env : Env) where
  -- An entry that one of the bodies given so far for its key has been turned into.
  pub record Comes (given : List (Text × YouTubeSearchResponse)) (e : Text × CacheEntry)
      : Type 0 where
    pub body : YouTubeSearchResponse
    pub was_given : IsIn (e.0, body) given
    pub shown : results_of env (items_of body) ≡ ok e.1.results
    pub next_page_token : body.next_page_token ≡ e.1.next_page_token
    pub prev_page_token : body.prev_page_token ≡ e.1.prev_page_token

  later-Comes :
      (more given : List (Text × YouTubeSearchResponse)) (e : Text × CacheEntry)
      → Comes given e
      → Comes (more ++ given) e
  later-Comes more given e h = record {
    body = h.body;
    was_given = IsIn-append_right (e.0, h.body) more given h.was_given;
    shown = h.shown;
    next_page_token = h.next_page_token;
    prev_page_token = h.prev_page_token;
  }

  -- The cache after the second half of a request: as it was, or with the body that was given.
  module _ (key : Text) (now : ℕ) (given : List (Text × YouTubeSearchResponse)) (cache : Cache)
      (h : All (Comes given) cache) where
    accepted :
        (body : YouTubeSearchResponse)
        → IsIn (key, body) given
        → All (Comes given) (on_accepted env key now cache (some body)).1
    unfolding on_accepted store
    accepted body was_given = by_results (results_of env (items_of body)) refl
      where
        by_results :
            (r : Outcome SearchError (List SearchResult))
            → results_of env (items_of body) ≡ r
            → All (Comes given) (on_results key now body cache r).1
        by_results (thrown x) e = h
        by_results (ok results) e =
            All-set_cache (Comes given) key
              (entry_at now results body.next_page_token body.prev_page_token) cache
              (record {
                body = body;
                was_given = was_given;
                shown = e;
                next_page_token = refl;
                prev_page_token = refl;
              })
              h

    read_body :
        (body : Option YouTubeSearchResponse)
        → ((b : YouTubeSearchResponse) → body ≡ some b → IsIn (key, b) given)
        → All (Comes given) (on_accepted env key now cache body).1
    unfolding on_accepted
    read_body none k = h
    read_body (some b) k = accepted b (k b refl)

    refused :
        (status : ℕ) (body : Option Text) → All (Comes given) (on_refused env status cache body).1
    unfolding on_refused
    refused status none = h
    refused status (some t) = h

    finished :
        (upstream : Option Upstream)
        → ((b : YouTubeSearchResponse) (res : Upstream)
            → upstream ≡ some res
            → res.body_json ≡ some b
            → IsIn (key, b) given)
        → All (Comes given) (finish env key upstream now cache).1
    unfolding finish
    finished none k = h
    finished (some res) k = elim (Bool-cases (is_ok res.status)) [
      | inl good ↦ rw good (read_body res.body_json (λ b. k b res refl))
      | inr bad ↦ rw bad (refused res.status res.body_text)
    ]

  given_by-IsIn :
      (key : Text) (upstream : Option Upstream) (given : List (Text × YouTubeSearchResponse))
      (b : YouTubeSearchResponse) (res : Upstream)
      → upstream ≡ some res
      → res.body_json ≡ some b
      → IsIn (key, b) (given_by key upstream ++ given)
  given_by-IsIn key upstream given b res e e' = rw (e, e') (inl refl)

  after_begin-given : (s : System) (r : Begun × Cache) → (after_begin s r).given ≡ s.given
  after_begin-given s (answered reply, cache) = refl
  after_begin-given s (fetching key params, cache) = refl

  Step-Comes :
      {s t : System} → Step env s t → All (Comes s.given) s.cache → All (Comes t.given) t.cache
  Step-Comes (tick s d) v = v
  Step-Comes (arrive s q page_token) v =
      let r = begin env s.now q page_token s.cache in
      subst (λ g. All (Comes g) (after_begin s r).cache) (sym (after_begin-given s r))
        (after_begin-cache s r (All (Comes s.given)) (
          begin-keeps env (All (Comes s.given)) (All-erase (Comes s.given)) s.now q page_token
            s.cache v))
  Step-Comes (respond s before after key upstream h) v =
      let given = given_by key upstream ++ s.given in
      finished key s.now given s.cache
        (All-map (Comes s.given) (Comes given) (later-Comes (given_by key upstream) s.given) s.cache
          v)
        upstream (given_by-IsIn key upstream s.given)

  Reach-Comes : (now : ℕ) {t : System} → Reach env (start env now) t → All (Comes t.given) t.cache
  Reach-Comes now here = tt
  Reach-Comes now (step r st) = Step-Comes st (Reach-Comes now r)

  -- However requests, responses and the clock interleave from an empty cache on, a page that a
  -- request with a query is served with the mark `cached` shows, in order, the items with a video
  -- id of a body that YouTube has given under the key of the query and the page token, with their
  -- entities decoded, and has the page tokens of that body.
  pub served_as_given :
      (now : ℕ) {t : System} (q page_token : Option Text) (query : Text)
      (results : List SearchResult) (next prev : Option Text) (cache : Cache)
      → Reach env (start env now) t
      → query_of q ≡ some query
      → begin env t.now q page_token t.cache ≡ (answered (page results next prev true), cache)
      → (body : YouTubeSearchResponse) × IsIn (cache_key env.lower query page_token, body) t.given
        × Selects env (items_of body) results
        × (body.next_page_token ≡ next)
        × (body.prev_page_token ≡ prev)
  served_as_given now {t} q page_token query results next prev cache r asked e =
      let key = cache_key env.lower query page_token in
      let (entry, found, same, _, _) =
        served_recently env now q page_token query results next prev cache r asked e in
      let comes = All-lookup (Comes t.given) key t.cache entry (Reach-Comes now r) found in
      let results_same : entry.results ≡ results = ground arith in
      let next_same : entry.next_page_token ≡ next = ground arith in
      let prev_same : entry.prev_page_token ≡ prev = ground arith in
      let shown : results_of env (items_of comes.body) ≡ ok results =
        comes.shown ∙ ap ok results_same in
      (
        comes.body,
        comes.was_given,
        (results_of_iff env (items_of comes.body) results).0 shown,
        comes.next_page_token ∙ next_same,
        comes.prev_page_token ∙ prev_same,
      )
