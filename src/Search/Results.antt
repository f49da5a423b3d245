-- ===== src/Search/Results.antt =====
-- web/src/routes/api/youtube-search/+server.ts, `GET`: the results that a page is made of, and the
-- refusals of YouTube.
use radio_jockey.Base.{
  ℕ, true, Option, none, some, List, [], ◌∷◌, Text, text, text_eq_iff, ◌≡◌, ◌⊎◌, ◌↔◌, refl, arith,
  ok, Outcome-cases, Option-cases, inl, inr,
}
use mathlib.Core.Path.{subst}
use radio_jockey.Search.Entities.{decode_html_entities}
use radio_jockey.Search.Cache.{SearchResult}
use radio_jockey.Search.Json.{
  Json, null, boolean, number, array, object, string, is_string, parse_error_reason,
}
use radio_jockey.Search.Handler.{Env, results_of, result_of, refusal}
use radio_jockey.Search.Responses.{YouTubeSearchItem, video_id_of, url_of, failure}

is_string_iff : (r : Option Json) (t : Text) → (is_string r t ≡ true) ↔ (r ≡ some (string t))
is_string_iff (some (string s)) t = ground (arith, text_eq_iff s t)
is_string_iff none t = ground arith
is_string_iff (some null) t = ground arith
is_string_iff (some (boolean b)) t = ground arith
is_string_iff (some (number n)) t = ground arith
is_string_iff (some (array vs)) t = ground arith
is_string_iff (some (object ms)) t = ground arith

module _ (env : Env) where
  -- A result shows an item: its video id, its texts with the entities decoded, its thumbnail.
  pub record Shows (item : YouTubeSearchItem) (r : SearchResult) : Type 0 where
    pub video_id : video_id_of item ≡ some r.video_id
    pub title : decode_html_entities env.inherited item.snippet.title ≡ ok r.title
    pub channel_title :
        decode_html_entities env.inherited item.snippet.channel_title ≡ ok r.channel_title
    pub thumbnail_url : url_of item.snippet ≡ r.thumbnail_url

  -- The results show, in order, the items that have a video id.
  pub data Selects : List YouTubeSearchItem → List SearchResult → Type 0 where
    done : Selects [] []
    skip :
        {item : YouTubeSearchItem} {items : List YouTubeSearchItem} {results : List SearchResult}
        → video_id_of item ≡ none
        → Selects items results
        → Selects (item ∷ items) results
    take :
        {item : YouTubeSearchItem} {items : List YouTubeSearchItem} {r : SearchResult}
        {results : List SearchResult}
        → Shows item r
        → Selects items results
        → Selects (item ∷ items) (r ∷ results)

  result_of-Shows :
      (item : YouTubeSearchItem) (video_id : Text) (r : SearchResult)
      → video_id_of item ≡ some video_id
      → result_of env video_id item ≡ ok r
      → Shows item r
  unfolding result_of
  result_of-Shows item video_id r present e =
      let title = decode_html_entities env.inherited item.snippet.title in
      let channel_title = decode_html_entities env.inherited item.snippet.channel_title in
      elim (Outcome-cases title) [
        | inr (x, titled) ↦ absurd (ground (arith, e, titled))
        | inl (t, titled) ↦ elim (Outcome-cases channel_title) [
          | inr (x, channelled) ↦ absurd (ground (arith, e, titled, channelled))
          | inl (c, channelled) ↦ record {
            video_id = ground arith;
            title = ground arith;
            channel_title = ground arith;
            thumbnail_url = ground arith;
          }
        ]
      ]

  results_of_sound :
      (items : List YouTubeSearchItem) (results : List SearchResult)
      → results_of env items ≡ ok results
      → Selects items results
  unfolding results_of
  results_of_sound [] results e = let same : [] ≡ results = cc in subst (Selects []) same done
  results_of_sound (item ∷ items) results e =
      let ih = results_of_sound items in
      elim (Option-cases (video_id_of item)) [
        | inl absent ↦ skip absent (ih results (rw (absent, results_of) at e))
        | inr (video_id, present) ↦ elim (Outcome-cases (result_of env video_id item)) [
          | inr (x, failed) ↦ absurd (ground (arith, e, present, failed))
          | inl (r, shown) ↦ elim (Outcome-cases (results_of env items)) [
            | inr (x, failed) ↦ absurd (ground (arith, e, present, shown, failed))
            | inl (rest, selected) ↦
                let same : r ∷ rest ≡ results = ground arith in
                subst (Selects (item ∷ items)) same
                  (take (result_of-Shows item video_id r present shown) (ih rest selected))
          ]
        ]
      ]

  results_of_complete :
      {items : List YouTubeSearchItem} {results : List SearchResult}
      → Selects items results
      → results_of env items ≡ ok results
  unfolding results_of result_of
  results_of_complete done = refl
  results_of_complete (skip absent h) = rw (absent, results_of) (results_of_complete h)
  results_of_complete (take shows h) =
      rw (shows.video_id, results_of)
        (rw (shows.title, shows.channel_title, results_of_complete h, shows.thumbnail_url))

  -- The `map` and `filter` of the handler return a list of results exactly when the list shows, in
  -- order, the items that have a video id, each with its entities decoded.
  pub results_of_iff :
      (items : List YouTubeSearchItem) (results : List SearchResult)
      → (results_of env items ≡ ok results) ↔ Selects items results
  results_of_iff items results = (results_of_sound items results, results_of_complete)

  -- A refusal of YouTube is answered by status 429 and `quota exceeded` exactly if its status is
  -- 403 and its reason is `quotaExceeded` or `dailyLimitExceeded`.
  pub refusal_quota :
      (status : ℕ) (error_text : Text)
      → (refusal env status error_text ≡ failure 429 (text "quota exceeded")) ↔ (
          (status ≡ 403)
          × ((parse_error_reason env.parse_json error_text ≡ some (string (text "quotaExceeded")))
              ⊎ (parse_error_reason env.parse_json error_text
                  ≡ some (string (text "dailyLimitExceeded")))))
  unfolding refusal
  refusal_quota status error_text =
      let reason = parse_error_reason env.parse_json error_text in
      ground (
        arith,
        is_string_iff reason (text "quotaExceeded"),
        is_string_iff reason (text "dailyLimitExceeded"),
      )
