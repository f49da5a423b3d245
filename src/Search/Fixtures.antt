-- ===== src/Search/Fixtures.antt =====
-- web/src/routes/api/youtube-search/+server.ts: an environment, a response and a cache for the examples.
use radio_jockey.Base.{◌+◌, if◌then◌else◌, Option, none, some, List, [], ◌∷◌, Text, text, text_eq}
use radio_jockey.Search.Json.{array, object, string, cons, nil, member, end}
use radio_jockey.Search.Cache.{SearchResult, CacheEntry, Cache, cache_ttl_ms}
use radio_jockey.Search.Handler.{Env}
use radio_jockey.Search.Responses.{Upstream, YouTubeSearchResponse, YouTubeSearchItem}
use radio_jockey.Search.Interleavings.{System}

abbrev pub env : Env
env = record {
  lower = λ s. s;
  inherited = λ name. none;
  parse_json = λ s. none;
  api_key = some (text "key");
}

-- `JSON.parse` of the body of a refusal.
abbrev pub quota_env : Env
quota_env = record env {
  parse_json = λ s. some (
      object (
        member (text "error")
          (object (
            member (text "errors")
              (array
                (cons (object (member (text "reason") (string (text "quotaExceeded")) end)) nil))
              end))
          end));
}

abbrev pub object_prototype : Text → Option Text
object_prototype name =
    if text_eq name (text "toString")
    then some (text "function toString() { [native code] }")
    else none

-- One video, one item without a video id.
abbrev pub items : List YouTubeSearchItem
items =
    (record {
      id = some (some (text "v1"));
      snippet = record { title = text "a &amp; b"; channel_title = text "c"; thumbnails = none };
    })
    ∷ (record {
      id = none;
      snippet = record { title = text "d"; channel_title = text "e"; thumbnails = none };
    })
    ∷ []

abbrev pub results : List SearchResult
results =
    (record {
      video_id = text "v1";
      title = text "a & b";
      channel_title = text "c";
      thumbnail_url = [];
    })
    ∷ []

abbrev pub body : YouTubeSearchResponse
body = record { items = some items; next_page_token = none; prev_page_token = none }

abbrev pub response : Option Upstream
response = some (record { status = 200; body_text = none; body_json = some body })

abbrev pub entry : CacheEntry
entry = record {
  results = results;
  next_page_token = none;
  prev_page_token = none;
  expires_at = 5 + cache_ttl_ms;
}

abbrev pub two_entries : Cache
two_entries = (text "one::", entry) ∷ (text "two::", entry) ∷ []

abbrev pub asked : System
asked = record { now = 5; cache = []; pending = text "song::" ∷ []; given = [] }

abbrev pub served : System
served = record {
  now = 5;
  cache = (text "song::", entry) ∷ [];
  pending = [];
  given = (text "song::", body) ∷ [];
}
