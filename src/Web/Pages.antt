-- ===== src/Web/Pages.antt =====
-- web/src/routes: the pages that make one call when they open, and what the components EntryList,
-- TrackListItem, VisitorCount and the layout show.
use radio_jockey.Base.{
  ℕ, Bool, true, false, ◌&&◌, Option, none, some, List, [], ◌∷◌, Text, text, text_eq, ℤ, pos,
  negsuc, ◌==◌, leb, if◌then◌else◌, Outcome, ok, thrown,
}
use radio_jockey.Proto.Messages.{
  Track, SessionInfo, ListSessionsResponse, SessionArchiveInfo, ListSessionArchivesResponse,
  GetSessionArchiveResponse,
}
use radio_jockey.Proto.Service.{Failure, connect_error, other_error, not_found}
use radio_jockey.Web.Errors.{friendly_error}
use radio_jockey.Web.YouTubeSearch.{watch_url}

-- stations/+page.svelte and archive/+page.svelte.
pub record Listing (A : Type 0) : Type 0 where
  pub items : List A
  pub error : Text
  pub loaded : Bool

unfoldable pub on_sessions :
    Outcome Failure ListSessionsResponse → Listing SessionInfo → Listing SessionInfo
on_sessions (ok res) p = record { items = res.sessions; error = p.error; loaded = true }
on_sessions (thrown err) p = record {
  items = p.items;
  error = (friendly_error err).0;
  loaded = true;
}

unfoldable pub on_archives :
    Outcome Failure ListSessionArchivesResponse
    → Listing SessionArchiveInfo
    → Listing SessionArchiveInfo
on_archives (ok res) p = record { items = res.archives; error = p.error; loaded = true }
on_archives (thrown err) p = record {
  items = p.items;
  error = (friendly_error err).0;
  loaded = true;
}

-- archive/[archiveId]/+page.svelte.
pub record ArchivePage : Type 0 where
  pub not_found : Bool
  pub session_id : Text
  pub created_at : ℤ
  pub tracks : List Track
  pub error : Text

abbrev pub on_no_archive : Failure → ArchivePage → ArchivePage
on_no_archive (connect_error not_found raw) p = record p { not_found = true }
on_no_archive (connect_error code raw) p = record p {
  error = (friendly_error (connect_error code raw)).0;
}
on_no_archive (other_error message) p = record p {
  error = (friendly_error (other_error message)).0;
}

unfoldable pub on_archive : Outcome Failure GetSessionArchiveResponse → ArchivePage → ArchivePage
on_archive (ok res) p = record p {
  session_id = res.session_id;
  created_at = res.created_at;
  tracks = res.tracks;
}
on_archive (thrown err) p = on_no_archive err p

unfoldable pub track_href : Track → Option Text
track_href track =
    if text_eq track.source (text "youtube") then some (watch_url track.source_id) else none

-- components/EntryList.svelte: one paragraph, or the entries.
pub data Entries (A : Type 0) : Type 0 where
  paragraph : Text → Entries A
  entries : List A → Entries A

unfoldable pub entry_list : {A : Type 0} → List A → (empty_message : Text) → Entries A
entry_list [] empty_message = paragraph empty_message
entry_list (x ∷ xs) empty_message = entries (x ∷ xs)

-- What a page with a list shows, and what stands below it.
pub data Body (A : Type 0) : Type 0 where
  loading : Body A
  listed : Entries A → Body A

abbrev pub page_body : {A : Type 0} → (empty_message : Text) → Listing A → Body A
page_body empty_message p = if p.loaded then listed (entry_list p.items empty_message) else loading

abbrev pub opening : {A : Type 0} → Listing A
opening = record { items = []; error = []; loaded = false }

-- components/VisitorCount.svelte: the words behind the number.
unfoldable pub visitors : Option ℕ → ℕ × Text
visitors none = (0, text "people online")
visitors (some count) = (count, if count == 1 then text "person online" else text "people online")

-- +layout.svelte, `shouldRenderCursor`, with the coordinates in whole pixels.
pub record Cursor : Type 0 where
  pub x : ℤ
  pub y : ℤ

abbrev pub within : ℤ → ℕ → Bool
within (pos a) size = leb a size
within (negsuc a) size = false

unfoldable pub should_render_cursor : Option Cursor → (inner_width inner_height : ℕ) → Bool
should_render_cursor none inner_width inner_height = false
should_render_cursor (some cursor) inner_width inner_height =
    within cursor.x inner_width && within cursor.y inner_height
