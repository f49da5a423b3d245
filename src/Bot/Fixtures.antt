-- ===== src/Bot/Fixtures.antt =====
-- discord-jockey/src: a client, a world and a playback for the examples.
use radio_jockey.Base.{
  List, ◌++◌, ◌≡◌, refl, has, lookup, text_eq, ℕ, suc, true, false, none, some, [], ◌∷◌, Text, text,
  ok, thrown, pos,
}
use radio_jockey.Proto.Messages.{
  DeleteSessionAuthResponse, RemoveTrackResponse, DeleteSessionArchiveResponse,
}
use radio_jockey.Proto.Service.{
  RadioClient, connect_error, unauthenticated, not_found, resource_exhausted,
}
use radio_jockey.Bot.Sessions.{Session, has_session}
use radio_jockey.Bot.Effects.{World, Env, M, call_authorized, info}
use radio_jockey.Bot.Threads.{advance, exec, perform, attempt, with_connect_error, ◌>>=◌, pure}
use radio_jockey.Bot.Threads.Play.{on_interaction, dispatch, handle_play, get_or_create_session}
use radio_jockey.Base.{inl, if◌then◌else◌}
use radio_jockey.Bot.Threads.System.Starting.{IsUp}
use radio_jockey.Bot.Threads.System.Twice.{PlaysTwice, play_twice}
use radio_jockey.Bot.Threads.System.{Bot, Running, interacted, place, starting}
use radio_jockey.Bot.Commands.{Interaction, get_session_id}
use radio_jockey.Bot.Slug.{session_id_of, slug_of, dash_runs, trim_dashes_start, trim_dashes_end}
use radio_jockey.Bot.Playback.{Playback}

-- The world outside counts the numbers it has given out.
abbrev pub client : RadioClient ℕ
client = record {
  ping = λ r h s. (ok (record { message = text "Pong!" }), s);
  request_nonce = λ r h s. (ok (record { nonce = text "n" }), s);
  respond_nonce = λ r h s. (ok (record { auth_token = text "fresh" }), s);
  create_session = λ r h s. (ok (record { stream_url = text "u" }), s);
  get_session = λ r h s. (ok (record { stream_url = text "u" }), s);
  delete_session_auth = λ r h s. (ok DeleteSessionAuthResponse.empty, s);
  add_track = λ r h s. (thrown (connect_error resource_exhausted (text "rate limit exceeded")), s);
  remove_track = λ r h s. (ok RemoveTrackResponse.empty, s);
  skip_track = λ r h s. (thrown (connect_error not_found []), s);
  list_queue = λ r h s. (ok (record { tracks = [] }), s);
  list_sessions = λ r h s. (ok (record { sessions = [] }), s);
  list_session_archives = λ r h s. (ok (record { archives = [] }), s);
  get_session_archive = λ r h s. (thrown (connect_error not_found []), s);
  delete_session_archive = λ r h s. (ok DeleteSessionArchiveResponse.empty, s);
}

abbrev pub env : Env ℕ
env = record {
  client = client;
  deliver = λ t s. (none, s);
  destroy = λ c s. (none, s);
  meanwhile = λ s m. m;
  join = λ channel s. (s, suc s);
  enters_ready = λ c s. (none, s);
  open_stream = λ url s. (s, suc s);
  close_stream = λ r s. s;
  icecast_url = text "http://icecast";
  lower = λ s. s;
  sign = λ nonce. ok nonce;
  show_error = λ e. [];
}

abbrev pub session : Session
session = record { connection = 3; buffer = some 4; auth_token = some (text "old") }

abbrev pub quiet : World ℕ
quiet = record { sessions = []; log = []; sent = []; external = 7 }

abbrev pub playing : World ℕ
playing = record quiet { sessions = (text "a-1", session) ∷ [] }

abbrev pub interaction : Interaction
interaction = record {
  guild_name = some (text "a");
  guild_id = some (text "1");
  in_guild = true;
  voice_channel = some (text "c");
  voice_channel_later = some (text "c");
  url = none;
  position = some (pos 2);
}

-- A server at which every token has expired.
abbrev pub expired_env : Env ℕ
expired_env = record env {
  client = record client {
    delete_session_auth = λ r h s. (thrown (connect_error unauthenticated (text "expired")), s);
  };
}

abbrev pub delete : Env ℕ → Text → M ℕ DeleteSessionAuthResponse
delete e token =
    call_authorized e e.client.delete_session_auth (record { session_id = text "a-1" }) token

-- A server at which the old token has expired.
abbrev pub delete_by : Text → M ℕ DeleteSessionAuthResponse
delete_by token =
    if text_eq token (text "fresh") then delete env token else delete expired_env token

abbrev pub renewed : World ℕ
renewed = record playing {
  sessions = (text "a-1", record session { auth_token = some (text "fresh") }) ∷ [];
}

-- The playback that the play command starts, and the world then.
abbrev pub playback : Playback
playback = record {
  session_id = text "a-1";
  stream_url = text "u";
  connection = 7;
  stopped = false;
  current_request = some 8;
  attached = true;
  live = 8 ∷ [];
  playing = none;
}

abbrev pub started_world : World ℕ
started_world = record {
  sessions = (text "a-1", record { connection = 7; buffer = some 8; auth_token = none }) ∷ [];
  log = text "[discord-jockey] INFO: stream started { sessionId: a-1, streamUrl: u }" ∷ [];
  sent = [];
  external = 9;
}

-- A table with the sessions of two guilds.
abbrev pub two_guilds : World ℕ
two_guilds = record quiet { sessions = (text "b-2", session) ∷ (text "a-1", session) ∷ [] }

-- The bot after a play command, whose handler waits for the session to be created.
unfoldable pub one_waits : Bot ℕ
unfolding interacted place
one_waits = interacted env true (text "play") interaction (starting quiet)

abbrev first : List Running → Running
first [] = record { session_id = []; replied = false; settled = 0; thread = pure none }
first (t ∷ ts) = t

unfoldable pub creating : Running
creating = first one_waits.running

pub one_waits_running : one_waits.running ≡ [] ++ creating ∷ []
unfolding one_waits creating advance exec on_interaction dispatch handle_play get_or_create_session
    perform attempt with_connect_error ◌>>=◌ info has_session has lookup text text_eq
one_waits_running = refl

pub creating_id : creating.session_id ≡ text "a-1"
unfolding one_waits creating advance exec on_interaction dispatch handle_play get_or_create_session
    perform attempt with_connect_error ◌>>=◌ info has_session has lookup text text_eq get_session_id
    session_id_of slug_of dash_runs trim_dashes_start trim_dashes_end
creating_id = refl

-- The server and Discord of the examples answer everything with success.
pub env-IsUp : IsUp env
env-IsUp = record {
  creates = λ r h s. inl (_, refl);
  finds = λ r h s. (_, refl);
  delivers = λ t s. refl;
  connects = λ c s. refl;
}

-- The bot with two playbacks of one session.
abbrev pub two_playing : PlaysTwice env quiet (get_session_id env interaction)
two_playing = play_twice env env-IsUp quiet interaction interaction (text "c") (text "d") refl
