-- ===== src/Web/Served.antt =====
-- web/src: the search panel of web/src/lib/components/YouTubeSearch.svelte in front of the endpoint
-- of web/src/routes/api/youtube-search/+server.ts.
pub mod Returning
use radio_jockey.Base.{
  ℕ, ◌+◌, ◌<◌, Bool, true, false, Option, none, some, List, [], ◌∷◌, ◌++◌, Text, lookup, erase,
  length, text_eq_iff, ◌≡◌, ◌≢◌, refl, sym, ap, ◌∙◌, arith, Outcome, ok, thrown, take,
}
use mathlib.Core.Path.{subst}
use mathlib.Core.List.{append_cancel_left}
use radio_jockey.Base.{lookup-erase, length-erase}
use radio_jockey.Search.Bounds.{lookup-set_cache_free}
use radio_jockey.Search.Cache.{
  Cache, CacheEntry, SearchResult, cache_key, or_empty, cache_ttl_ms, cache_max_entries, set_cache,
}
use radio_jockey.Search.Entities.{SearchError}
use radio_jockey.Search.Handler.{Env, query_of, get, hit_reply}
use radio_jockey.Search.Keeps.{get-keeps}
use radio_jockey.Search.Replies.{entry_at, get_hit, fresh_from_get}
use radio_jockey.Search.Responses.{Upstream, Reply, failure, page, nonempty_text}
use radio_jockey.Web.YouTubeSearch.{
  Panel, Turn, next, prev, Task, search, add, Fetched, failed, refused, found, resume, handle_next,
  handle_prev, run_search, token_at, is_none, turn_to_next,
}
use radio_jockey.Web.YouTubeSearch.Paging.{IsPaged, token_at-take}

-- What `fetch` and `res.json()` give the panel; SvelteKit answers a handler that throws by a 500.
unfoldable pub fetched_of : Outcome SearchError Reply → Fetched
fetched_of (thrown err) = refused 500
fetched_of (ok (failure status error)) = refused status
fetched_of (ok (page results next_page_token prev_page_token cached)) =
    found results next_page_token

-- `page?.token`, as a search parameter.
abbrev pub page_param : Option Turn → Option Text
page_param none = none
page_param (some turn) = nonempty_text turn.token

-- A request of the endpoint: when it starts and when YouTube has answered, and what YouTube says.
pub record Visit : Type 0 where
  pub started : ℕ
  pub ended : ℕ
  pub youtube : List (Text × Text) → Option Upstream

module _ (env : Env) where
  abbrev pub visit :
      Visit
      → (query : Text) → (page_token : Option Text) → Cache
      → Outcome SearchError Reply × Cache
  visit v query page_token cache = get env v.started v.ended (some query) page_token v.youtube cache

  -- A handler of the panel, and the answer to the search that it begins.
  unfoldable pub serve : Visit → Panel × List Task → Cache → Panel × Cache
  unfolding fetched_of
  serve v (p, search query turn ∷ []) cache =
      let (reply, cache') = visit v query (page_param turn) cache in
      ((resume (search query turn) (fetched_of reply) p).0, cache')
  serve v (p, begun) cache = (p, cache)
