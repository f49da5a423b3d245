-- ===== src/Search/Examples.antt =====
-- web/src/routes/api/youtube-search/+server.ts: the theorems on requests at concrete inputs.
use radio_jockey.Base.{
  ◌+◌, true, insert, decimal, thrown, ◌↔◌, ◌≤◌, ◌<◌, none, some, [], text, ◌≡◌, refl, arith, lookup,
  text_eq, ok,
}
use radio_jockey.Search.Entities.{decode_html_entities, range_error}
use radio_jockey.Search.Escapes.{escape, decode_html_entities-escape}
use radio_jockey.Search.References.{decode_numeric_above, decode_inherited}
use radio_jockey.Search.Keys.{cache_key_inj, cache_key_collision}
use radio_jockey.Search.Cache.{CacheEntry, cache_key, set_cache, cache_ttl_ms}
use radio_jockey.Search.Handler.{
  begin, look_up, request, hit_reply, get, finish, store, on_accepted, results_of, result_of,
  resume,
}
use radio_jockey.Search.Responses.{page}
use radio_jockey.Search.Trimming.{trim, trim_start, trim_end, is_space}
use radio_jockey.Search.Bounds.{IsValid}
use radio_jockey.Search.Replies.{get_repeated}
use radio_jockey.Search.Results.{Selects, results_of_iff}
use radio_jockey.Search.Interleavings.{
  Reach, here, step, arrive, respond, start, IsRecent, Reach-IsValid, served_recently,
}
use radio_jockey.Search.Provenance.{IsIn, served_as_given}
use radio_jockey.Search.Responses.{YouTubeSearchResponse, items_of}
use radio_jockey.Search.Fixtures.{env, object_prototype, items, results, response, asked, served}

run : Reach env (start env 5) served
unfolding begin look_up request cache_key text trim trim_start trim_end is_space finish store
    on_accepted results_of result_of decode_html_entities set_cache lookup text_eq insert
run =
    step (step here (arrive (start env 5) (some (text " song")) none))
      (respond asked [] [] (text "song::") response refl)

served_recently_example :
    (e : CacheEntry) × (lookup (cache_key (λ s. s) (text "song") none) served.cache ≡ some e)
    × (hit_reply e ≡ page results none none true)
    × (5 < e.expires_at)
    × (e.expires_at ≤ 5 + cache_ttl_ms)
unfolding begin look_up cache_key text trim trim_start trim_end is_space lookup text_eq
served_recently_example =
    served_recently env 5 (some (text "song ")) none (text "song") results none none served.cache
      run refl refl

Reach-IsValid_example : IsValid served.cache × IsRecent 5 served.cache
Reach-IsValid_example = Reach-IsValid env 5 run

get_repeated_example :
    get env 6 9 (some (text "song ")) none (λ p. none) served.cache
    ≡ (ok (page results none none true), served.cache)
unfolding get resume begin look_up request cache_key text trim trim_start trim_end is_space finish
    store on_accepted results_of result_of decode_html_entities set_cache lookup text_eq insert
get_repeated_example =
    get_repeated env 4 5 6 9 (some (text "song")) (some (text "song ")) none (text "song")
      (text "song") (λ p. response) (λ p. none) [] served.cache results none none refl refl refl
      (omega arith) refl

results_of_iff_example : (results_of env items ≡ ok results) ↔ Selects env items results
results_of_iff_example = results_of_iff env items results

cache_key_inj_example : (text "song" ≡ text "song") × (text "P" ≡ text "P")
unfolding text
cache_key_inj_example =
    cache_key_inj (λ s. s) (text "song") (text "song") (some (text "P")) (some (text "P"))
      ((λ e. ground arith), tt) ((λ e. ground arith), tt) refl

cache_key_collision_example :
    cache_key (λ s. s) (text "a::b") none ≡ cache_key (λ s. s) (text "a") (some (text "b::"))
unfolding text
cache_key_collision_example = cache_key_collision (λ s. s) (text "a") (text "b") refl

decode_html_entities-escape_example :
    decode_html_entities (λ n. none) (escape (text "<a>")) ≡ ok (text "<a>")
decode_html_entities-escape_example = decode_html_entities-escape (λ n. none) (text "<a>")

decode_numeric_above_example :
    decode_html_entities (λ n. none) (text "&#1114112; b") ≡ thrown range_error
unfolding text decimal
decode_numeric_above_example = decode_numeric_above (λ n. none) 1114112 (text " b") (omega arith)

decode_inherited_example :
    decode_html_entities object_prototype (text "&toString;!")
    ≡ ok (text "function toString() { [native code] }!")
unfolding text decode_html_entities text_eq lookup
decode_inherited_example =
    decode_inherited object_prototype (text "toString")
      (text "function toString() { [native code] }") (text "!") (λ e. ground arith)
      (refl, (refl, (refl, (refl, (refl, (refl, (refl, (refl, tt)))))))) refl refl

served_as_given_example :
    (b : YouTubeSearchResponse) × IsIn (cache_key (λ s. s) (text "song") none, b) served.given
    × Selects env (items_of b) results
    × (b.next_page_token ≡ none)
    × (b.prev_page_token ≡ none)
unfolding begin look_up cache_key text trim trim_start trim_end is_space lookup text_eq
served_as_given_example =
    served_as_given env 5 (some (text "song ")) none (text "song") results none none served.cache
      run refl refl
