-- ===== src/Web/Player.antt =====
-- web/src/routes/stations/[sessionId]/+page.svelte: the audio player. The element and the audio graph
-- are the browser's: of the element only what the page sets is kept, and of the graph its gain. The
-- volume is in hundredths.
pub mod Wiring
pub mod Volume
use radio_jockey.Base.{
  ℕ, zero, suc, ◌+◌, Bool, true, false, Option, none, some, List, [], ◌∷◌, ◌++◌, Text, ◌≡◌, refl,
  arith, if◌then◌else◌, is_nonempty, ◌↔◌, ◌⊎◌, inl, inr, Bool-cases,
}
use radio_jockey.Proto.Messages.{Track}

pub record Audio : Type 0 where
  pub src : Option Text
  pub paused : Bool

pub data PlaybackState : Type 0 where
  state_none state_playing state_paused : PlaybackState

-- `gain` is `gainNode.gain.value`, and `sources` counts the calls of `createMediaElementSource`.
pub record Player : Type 0 where
  pub audio_el : Option Audio
  pub playing : Bool
  pub volume : ℕ
  pub gain : Option ℕ
  pub sources : ℕ
  pub playback_state : PlaybackState

-- A GainNode begins at 1.
abbrev pub with_graph : Option Audio → Option ℕ → Player → Player
with_graph none gain p = p
with_graph (some el) none p = record p { gain = some 100; sources = suc p.sources }
with_graph (some el) (some g) p = p

unfoldable pub ensure_audio_graph : Player → Player
ensure_audio_graph p = with_graph p.audio_el p.gain p

abbrev pub set_gain : ℕ → Option ℕ → Option ℕ
set_gain v none = none
set_gain v (some g) = some v

-- The slider, and the effect that follows the volume.
unfoldable pub set_volume : ℕ → Player → Player
set_volume v p = record p { volume = v; gain = set_gain v p.gain }

-- `bind:this`, once there is a stream.
abbrev pub bound : Option Audio → Option Audio
bound none = some (record { src = none; paused = true })
bound (some el) = some el

pub data Event : Type 0 where
  show press_play press_stop : Event
  slide : ℕ → Event

-- `media_session` says that the browser has `navigator.mediaSession`.
module _ (media_session : Bool) (stream_url : Text) where
  abbrev pub tell : PlaybackState → Player → Player
  tell state p = record p { playback_state = if media_session then state else p.playback_state }

  abbrev pub play_on : Option Audio → Player → Player
  play_on none p = p
  play_on (some el) p =
      if is_nonempty stream_url
      then tell state_playing
          (record (ensure_audio_graph
            (record p { audio_el = some (record { src = some stream_url; paused = false }) })) {
              playing = true;
            })
      else p

  unfoldable pub play : Player → Player
  unfolding ensure_audio_graph
  play p = play_on p.audio_el p

  abbrev pub stop_on : Option Audio → Player → Player
  stop_on none p = p
  stop_on (some el) p =
      tell state_paused
        (record p { audio_el = some (record { src = none; paused = true }); playing = false })

  unfoldable pub stop : Player → Player
  stop p = stop_on p.audio_el p

  -- The mount of the element waits for the stream's URL.
  unfoldable pub on_event : Event → Player → Player
  unfolding play stop set_volume
  on_event show p = if is_nonempty stream_url then record p { audio_el = bound p.audio_el } else p
  on_event press_play p = play p
  on_event press_stop p = stop p
  on_event (slide v) p = set_volume v p

  abbrev pub run : List Event → Player → Player
  run [] p = p
  run (e ∷ es) p = run es (on_event e p)

abbrev pub silent : Player
silent = record {
  audio_el = none;
  playing = false;
  volume = 100;
  gain = none;
  sources = 0;
  playback_state = state_none;
}

-- The metadata of the media session, from the playing track: its one picture, if it has one, is
-- given by its URL.
pub record MediaMetadata : Type 0 where
  pub title : Text
  pub artist : Text
  pub artwork : List Text

unfoldable pub media_metadata : List Track → Option MediaMetadata
media_metadata [] = none
media_metadata (current ∷ tracks) = some (record {
  title = current.title;
  artist = current.artist;
  artwork = if is_nonempty current.album_art_url then current.album_art_url ∷ [] else [];
})
