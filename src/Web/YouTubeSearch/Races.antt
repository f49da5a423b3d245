-- ===== src/Web/YouTubeSearch/Races.antt =====
-- web/src/lib/components/YouTubeSearch.svelte: a new search while a page is still being turned.
use radio_jockey.Base.{
  true, false, Option, none, some, List, [], ◌∷◌, Text, ◌≡◌, refl, arith, is_nonempty,
}
use mathlib.Core.Path.{subst}
use radio_jockey.Search.Cache.{SearchResult}
use radio_jockey.Search.Trimming.{trim}
use radio_jockey.Web.Machine.{System, happen, settle, Reach, here, step, after_act}
use radio_jockey.Web.YouTubeSearch.{
  Panel, Turn, next, Task, search, found, submit, press_next, resume, handle_submit, handle_search,
  handle_next, run_search, is_shown, panel, fresh,
}

submit_lem :
    (query : Text) (p : Panel)
    → is_nonempty (trim query) ≡ true
    → handle_submit query p ≡ handle_search (trim query) p
unfolding handle_submit
submit_lem query p h = rw h refl

pub next_page : Text → Turn
next_page token = record { token = some token; direction = next }

-- The page of the old query is all that the panel waits for.
abbrev pub WaitsFor : (old new token : Text) → Panel → List Task → Type 0
WaitsFor old new token p pending =
    (p.current_query ≡ new) × (pending ≡ search old (some (next_page token)) ∷ [])

-- The results stand under the query, as its first page.
abbrev pub Shows : Text → List SearchResult → Panel → Type 0
Shows query rs p =
    (p.current_query ≡ query) × (p.results ≡ rs) × (p.page_index ≡ 0) × (is_shown p ≡ true)

module _ (session_id : Text) where
  submit_run :
      (query : Text) {s u : System (panel session_id)}
      → is_nonempty (trim query) ≡ true
      → Reach (panel session_id) s u
      → u.state.searching ≡ false
      → Reach
          (panel session_id)
          s
          (after_act (panel session_id) (handle_search (trim query) u.state) u.pending)
  submit_run query {s} {u} h r idle =
      subst (λ q. Reach (panel session_id) s (after_act (panel session_id) q u.pending))
        (submit_lem query u.state h) (step r (happen (submit query) (ground arith)))

  -- For two queries that are not blank and a token that is not empty, the panel can come to show
  -- the first page of the second query while a page of the first query is all that is pending;
  -- whatever results that page then has, they are shown under the second query, as its first page.
  pub stale_page :
      (query query' token : Text) (first_page first_page' : List SearchResult)
      (token' : Option Text)
      → is_nonempty (trim query) ≡ true
      → is_nonempty (trim query') ≡ true
      → is_nonempty token ≡ true
      → (u : System (panel session_id)) × Reach
          (panel session_id)
          (record { state = fresh; pending = [] })
          u
        × WaitsFor (trim query) (trim query') token u.state u.pending
        × Shows (trim query') first_page' u.state
        × ((rs : List SearchResult) (after : Option Text)
            → Shows
                (trim query')
                rs
                (resume (search (trim query) (some (next_page token))) (found rs after) u.state).0)
  unfolding handle_search run_search handle_next resume next_page
  stale_page query query' [] r0 r1 n1 h h' ne = absurd (ground arith)
  stale_page query query' (c ∷ t) r0 r1 n1 h h' ne =
      let s0 : System (panel session_id) = record { state = fresh; pending = [] } in
      let searched = submit_run query {s = s0} h here refl in
      let listed =
        step searched (settle [] [] (search (trim query) none) (found r0 (some (c ∷ t))) refl) in
      let turned = step listed (happen press_next (ground arith)) in
      let again = submit_run query' h' turned refl in
      let done = step again (
        settle [] (search (trim query) (some (next_page (c ∷ t))) ∷ []) (search (trim query') none)
          (found r1 n1) refl) in
      (
        _,
        done,
        (refl, refl),
        (refl, refl, refl, ground arith),
        λ rs after. (refl, refl, refl, ground arith),
      )
