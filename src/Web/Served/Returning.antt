-- ===== src/Web/Served/Returning.antt =====
-- web/src/lib/components/YouTubeSearch.svelte and
-- web/src/routes/api/youtube-search/+server.ts: a page turn and the way back.
use radio_jockey.Base.{
  ◌+◌, ◌<◌, suc, true, false, Option, none, some, List, [], ◌∷◌, ◌++◌, Text, lookup, length,
  text_eq_iff, ◌≡◌, ◌≢◌, refl, sym, ◌∙◌, arith, ok, take, lookup-erase, length-erase,
}
use mathlib.Core.Path.{subst}
use mathlib.Core.List.{append_cancel_left}
use radio_jockey.Search.Bounds.{lookup-set_cache_free}
use radio_jockey.Search.Cache.{
  Cache, CacheEntry, cache_key, or_empty, cache_ttl_ms, cache_max_entries,
}
use radio_jockey.Search.Handler.{Env, query_of, get}
use radio_jockey.Search.Keeps.{get-keeps}
use radio_jockey.Search.Replies.{entry_at, get_hit, fresh_from_get}
use radio_jockey.Search.Responses.{page, nonempty_text}
use radio_jockey.Web.Served.{Visit, visit, serve, fetched_of, page_param}
use radio_jockey.Web.YouTubeSearch.{
  Panel, Turn, Task, search, Fetched, failed, refused, found, resume, handle_next, handle_prev,
  run_search, token_at, is_none, turn_to_next,
}
use radio_jockey.Web.YouTubeSearch.Paging.{IsPaged, token_at-take}
use radio_jockey.Web.YouTubeSearch.Turning.{next_lem, answered}

-- The page of `p` is there again, with nothing to wait for and no error.
pub record Returns (p q : Panel) : Type 0 where
  pub query : q.current_query ≡ p.current_query
  pub results : q.results ≡ p.results
  pub next_page : q.next_page_token ≡ p.next_page_token
  pub index : q.page_index ≡ p.page_index
  pub error : q.search_error ≡ []
  pub loading : is_none q.page_loading_direction ≡ true

-- The token that the page of the panel was asked for with.
abbrev pub page_token : Panel → Option Text
page_token p = nonempty_text (token_at p.page_tokens p.page_index)

module _ (env : Env) where
  survives :
      (k : Text) (query : Text) (q page_token : Option Text) (v : Visit) (cache : Cache)
      (entry : CacheEntry)
      → query_of q ≡ some query
      → cache_key env.lower query page_token ≢ k
      → length cache < cache_max_entries
      → lookup k cache ≡ some entry
      → lookup k (get env v.started v.ended q page_token v.youtube cache).1 ≡ some entry
  survives k query q page_token v cache entry asked ne free h =
      let key = cache_key env.lower query page_token in
      get-keeps env (λ c. (lookup k c ≡ some entry) × (length c < cache_max_entries))
        (λ c. lookup k c ≡ some entry) (λ c r. r.0) v.ended query page_token
        (λ c r. (
          ground (arith, lookup-erase key k c, text_eq_iff key k, r.0),
          omega (arith, length-erase key c, r.1),
        ))
        (λ results next prev c r.
          lookup-set_cache_free key k (entry_at v.ended results next prev) c ne r.1 ∙ r.0)
        v.youtube v.started q cache asked (h, free)

  key_ne :
      (query token : Text) (other : Option Text)
      → token ≢ or_empty other
      → cache_key env.lower query (some token) ≢ cache_key env.lower query other
  unfolding cache_key
  key_ne query token other ne e =
      let rest = append_cancel_left (env.lower query) _ _ e in ne (ground (arith, rest))

  -- An entry of the cache answers the search of a page turn.
  arrived :
      (p q : Panel) (query : Text) (turn : Turn) (v : Visit) (cache : Cache) (entry : CacheEntry)
      → query_of (some p.current_query) ≡ some query
      → lookup (cache_key env.lower query (page_param (some turn))) cache ≡ some entry
      → v.started < entry.expires_at
      → q.current_query ≡ p.current_query
      → q.page_index ≡ p.page_index
      → q.search_error ≡ []
      → p.results ≡ entry.results
      → p.next_page_token ≡ entry.next_page_token
      → Returns p (serve env v (q, search p.current_query (some turn) ∷ []) cache).0
  unfolding serve fetched_of resume
  arrived p q query turn v cache entry asked stored live same_query same_index no_error e e' =
      let hit =
        get_hit env v.started v.ended (some p.current_query) (page_param (some turn)) query
          v.youtube cache entry asked stored live in
      subst (λ r. Returns p (resume (search p.current_query (some turn)) (fetched_of r.0) q).0)
        (sym hit)
        (record {
          query = same_query;
          results = sym e;
          next_page = sym e';
          index = same_index;
          error = no_error;
          loading = refl;
        })

  -- The entry answers `handlePrev`, whatever the page turn was answered by.
  back_lem :
      (p : Panel) (token query : Text) (v : Visit) (cache : Cache) (entry : CacheEntry)
      (f : Fetched)
      → IsPaged p
      → query_of (some p.current_query) ≡ some query
      → lookup (cache_key env.lower query (page_token p)) cache ≡ some entry
      → v.started < entry.expires_at
      → p.results ≡ entry.results
      → p.next_page_token ≡ entry.next_page_token
      → Returns p
          (serve env v (handle_prev (answered p token f (turn_to_next (some token) p))) cache).0
  unfolding handle_prev run_search resume
  back_lem p token query v cache entry f paged asked stored live e e' = by_answer f
    where
      same :
          token_at (take (suc p.page_index) p.page_tokens ++ some token ∷ []) p.page_index
          ≡ token_at p.page_tokens p.page_index
      same =
          token_at-take p.page_index p.page_index p.page_tokens (some token) paged.within
            (omega arith)

      stored' :
          lookup
            (cache_key env.lower query (
              nonempty_text
                (token_at (take (suc p.page_index) p.page_tokens ++ some token ∷ []) p.page_index)))
            cache
          ≡ some entry
      stored' = rw same stored

      by_answer :
          (g : Fetched)
          → Returns p
              (serve env v (handle_prev (answered p token g (turn_to_next (some token) p))) cache).0
      by_answer (failed err) =
          arrived p _ query _ v cache entry asked stored' live refl refl refl e e'
      by_answer (refused status) =
          arrived p _ query _ v cache entry asked stored' live refl refl refl e e'
      by_answer (found rs t) =
          arrived p _ query _ v cache entry asked stored' live refl refl refl e e'

  nonempty_lem :
      (t : Option Text) (token : Text)
      → nonempty_text t ≡ some token
      → nonempty_text (some token) ≡ some token
  nonempty_lem none token e = cc
  nonempty_lem (some []) token e = cc
  nonempty_lem (some (c ∷ t)) token e =
      subst (λ u. nonempty_text (some u) ≡ some u) (some_inj e) refl
    where
      some_inj : some (c ∷ t) ≡ some token → c ∷ t ≡ token
      some_inj h = cc

  abbrev returned : (there back : Visit) → Cache → Panel × List Task → Panel
  returned there back cache r =
      let turned = serve env there r cache in (serve env back (handle_prev turned.0) turned.1).0

  returns_lem :
      (p : Panel) (query token : Text) (first there back : Visit) (before after : Cache)
      (prev_token : Option Text)
      → IsPaged p
      → query_of (some p.current_query) ≡ some query
      → visit env first p.current_query (page_token p) before
        ≡ (ok (page p.results p.next_page_token prev_token false), after)
      → nonempty_text p.next_page_token ≡ some token
      → token ≢ or_empty (page_token p)
      → length after < cache_max_entries
      → back.started < first.ended + cache_ttl_ms
      → Returns p (returned there back after (turn_to_next (some token) p))
  unfolding serve run_search
  returns_lem p query token first there back before after prev_token paged asked e more ne free
        soon =
      let entry = entry_at first.ended p.results p.next_page_token prev_token in
      let key = cache_key env.lower query (page_token p) in
      let stored : lookup key after ≡ some entry =
        fresh_from_get env first.started first.ended (some p.current_query) (page_token p) query
          first.youtube before after p.results p.next_page_token prev_token asked e in
      let other : cache_key env.lower query (nonempty_text (some token)) ≢ key =
        rw (nonempty_lem p.next_page_token token more) (key_ne query token (page_token p) ne) in
      let left = visit env there p.current_query (nonempty_text (some token)) after in
      back_lem p token query back left.1 entry (fetched_of left.0) paged asked
        (survives key query (some p.current_query) (nonempty_text (some token)) there after entry
          asked other free stored)
        soon refl refl

  -- A turn to the next page and then to the page before, each answered before the next is made.
  abbrev pub there_and_back : Panel → (there back : Visit) → Cache → Panel
  there_and_back p there back cache = returned there back cache (handle_next p)

  -- If the page of the panel is what the endpoint has answered from YouTube for its query and page
  -- token, less than a day before, the index of the page is below the number of the page tokens
  -- and the first token is undefined, the next page token is neither empty nor that of the page,
  -- and the cache is not full, then `handleNext` and then `handlePrev`, each with its request
  -- answered before anything else happens, show the page again, at its index, with its next page
  -- token and without an error or a loading mark, whatever YouTube says to either request.
  pub next-prev-Returns :
      (p : Panel) (query token : Text) (first there back : Visit) (before after : Cache)
      (prev_token : Option Text)
      → IsPaged p
      → query_of (some p.current_query) ≡ some query
      → visit env first p.current_query (page_token p) before
        ≡ (ok (page p.results p.next_page_token prev_token false), after)
      → nonempty_text p.next_page_token ≡ some token
      → token ≢ or_empty (page_token p)
      → length after < cache_max_entries
      → back.started < first.ended + cache_ttl_ms
      → Returns p (there_and_back p there back after)
  next-prev-Returns p query token first there back before after prev_token paged asked e more ne
        free soon =
      subst (λ r. Returns p (returned there back after r)) (sym (next_lem p token more))
        (returns_lem p query token first there back before after prev_token paged asked e more ne
          free soon)
