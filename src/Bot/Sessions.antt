-- ===== src/Bot/Sessions.antt =====
-- discord-jockey/src/discord/sessions.ts: the table of voice sessions.
use radio_jockey.Base.{ℕ, Bool, Option, none, some, Text, Dict, lookup, insert, has}

-- A voice connection and a buffer are objects of libraries, named by numbers.
pub record Session : Type 0 where
  pub connection : ℕ
  pub buffer : Option ℕ
  pub auth_token : Option Text

abbrev pub Sessions : Type 0
Sessions = Dict Session

unfoldable pub has_session : Text → Sessions → Bool
has_session guild_id sessions = has guild_id sessions

abbrev pub token_of : Option Session → Option Text
token_of none = none
token_of (some session) = session.auth_token

unfoldable pub get_auth_token : Text → Sessions → Option Text
get_auth_token guild_id sessions = token_of (lookup guild_id sessions)

-- The session is one object: what is assigned to it is seen in the table.
unfoldable pub set_auth_token : Text → Text → Sessions → Sessions
set_auth_token guild_id auth_token sessions = elim (lookup guild_id sessions) [
  | none ↦ sessions
  | some session ↦ insert guild_id (record session { auth_token = some auth_token }) sessions
]

unfoldable pub create_session : Text → ℕ → Sessions → Sessions
create_session guild_id connection sessions =
    insert guild_id (record { connection = connection; buffer = none; auth_token = none }) sessions

unfoldable pub set_buffer : Text → ℕ → Sessions → Sessions
set_buffer guild_id buffer sessions = elim (lookup guild_id sessions) [
  | none ↦ sessions
  | some session ↦ insert guild_id (record session { buffer = some buffer }) sessions
]
