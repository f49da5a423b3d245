-- ===== src/Search/Responses.antt =====
-- web/src/routes/api/youtube-search/+server.ts: the response of YouTube, what the handler reads of it,
-- and the reply of the handler.
use radio_jockey.Base.{ℕ, Bool, ◌&&◌, Option, none, some, List, [], ◌∷◌, Text, leb}
use radio_jockey.Search.Cache.{SearchResult, or_empty}

-- The response of YouTube as the program types it. Absent properties are `none`.
pub record Snippet : Type 0 where
  pub title : Text
  pub channel_title : Text
  pub thumbnails : Option (Option Text)

pub record YouTubeSearchItem : Type 0 where
  pub id : Option (Option Text)
  pub snippet : Snippet

pub record YouTubeSearchResponse : Type 0 where
  pub items : Option (List YouTubeSearchItem)
  pub next_page_token : Option Text
  pub prev_page_token : Option Text

-- A response of the upstream: its status and what reading its body as text or as JSON gives,
-- `none` where that rejects.
pub record Upstream : Type 0 where
  pub status : ℕ
  pub body_text : Option Text
  pub body_json : Option YouTubeSearchResponse

-- The reply: `json({ error }, { status })`, or a page of results with the mark `cached`.
pub data Reply : Type 0 where
  failure : (status : ℕ) → (error : Text) → Reply
  page :
      List SearchResult → (next_page_token prev_page_token : Option Text) → (cached : Bool) → Reply

-- A text that is falsy, absent or empty, is `none`.
abbrev pub nonempty_text : Option Text → Option Text
nonempty_text none = none
nonempty_text (some []) = none
nonempty_text (some (c ∷ s)) = some (c ∷ s)

abbrev pub is_ok : ℕ → Bool
is_ok status = leb 200 status && leb status 299

-- `item.id?.videoId`, `none` where it is falsy.
abbrev pub video_id_of : YouTubeSearchItem → Option Text
video_id_of item = elim item.id [ none ↦ none | some v ↦ nonempty_text v ]

abbrev pub url_of : Snippet → Text
url_of snippet = elim snippet.thumbnails [ none ↦ [] | some url ↦ or_empty url ]

abbrev pub items_of : YouTubeSearchResponse → List YouTubeSearchItem
items_of response = elim response.items [ none ↦ [] | some items ↦ items ]
