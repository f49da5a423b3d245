-- ===== src/Bot/Tables.antt =====
-- discord-jockey/src/discord/sessions.ts: what the operations make of the table of sessions.
use radio_jockey.Base.{
  ℕ, none, some, Text, ok, thrown, ◌≡◌, ap, ◌∙◌, arith, if◌then◌else◌, lookup, text_eq, erase,
  lookup-insert,
}
use radio_jockey.Proto.Service.{other_error}
use radio_jockey.Bot.Sessions.{Session, Sessions, create_session, set_auth_token, get_auth_token}
use radio_jockey.Bot.Effects.{
  Env, World, destroy_session, destroy_connection, destroy_found, delivered, after, update_sessions,
}

-- If the table has a session under an id, keeping a token under that id is seen under that id and
-- changes the token under no other.
pub get_auth_token-set_auth_token :
    (id other token : Text) (sessions : Sessions) (session : Session)
    → lookup id sessions ≡ some session
    → get_auth_token other (set_auth_token id token sessions)
      ≡ (if text_eq id other then some token else get_auth_token other sessions)
unfolding get_auth_token set_auth_token
get_auth_token-set_auth_token id other token sessions session found =
    ground (arith, lookup-insert id other (record session { auth_token = some token }) sessions)

-- Where there is no session the token is dropped.
pub set_auth_token_absent :
    (id token : Text) (sessions : Sessions)
    → lookup id sessions ≡ none
    → set_auth_token id token sessions ≡ sessions
unfolding set_auth_token
set_auth_token_absent id token sessions absent = rw (absent, set_auth_token)

-- A session that is created anew has no token and no buffer, whatever stood there before.
pub lookup-create_session :
    (id other : Text) (connection : ℕ) (sessions : Sessions)
    → lookup other (create_session id connection sessions) ≡ (
        if text_eq id other
        then some (record { connection = connection; buffer = none; auth_token = none })
        else lookup other sessions)
unfolding create_session
lookup-create_session id other connection sessions = lookup-insert id other _ sessions

module _ {S : Type 0} (env : Env S) where
  found_lem :
      (id : Text) (w : World S) (session : Session)
      → lookup id w.sessions ≡ some session
      → destroy_session env id w
        ≡ after (destroy_connection env session.connection w) (λ _. update_sessions (erase id))
  unfolding destroy_session
  found_lem id w session found =
      ap (λ r. after (destroy_found env r w) (λ _. update_sessions (erase id))) found

  -- A session whose connection can be destroyed is destroyed and leaves the table.
  pub destroy_session_found :
      (id : Text) (w : World S) (session : Session)
      → lookup id w.sessions ≡ some session
      → (env.destroy session.connection w.external).0 ≡ none
      → destroy_session env id w ≡ (
        ok tt,
        record w {
          sessions = erase id w.sessions;
          external = (env.destroy session.connection w.external).1;
        },
      )
  unfolding destroy_connection
  destroy_session_found id w session found destroyed =
      let after_destroy = (env.destroy session.connection w.external).1 in
      found_lem id w session found
      ∙ ap
          (λ r.
            after (delivered r, record w { external = after_destroy })
              (λ _. update_sessions (erase id)))
          destroyed

  -- Where there is none, nothing is destroyed.
  pub destroy_session_absent :
      (id : Text) (w : World S)
      → lookup id w.sessions ≡ none
      → destroy_session env id w ≡ (ok tt, record w { sessions = erase id w.sessions })
  unfolding destroy_session
  destroy_session_absent id w absent =
      ap (λ r. after (destroy_found env r w) (λ _. update_sessions (erase id))) absent

  -- A connection that refuses to be destroyed stays in the table, and the error goes on.
  pub destroy_session_refused :
      (id : Text) (w : World S) (session : Session) (message : Text)
      → lookup id w.sessions ≡ some session
      → (env.destroy session.connection w.external).0 ≡ some message
      → destroy_session env id w ≡ (
        thrown (other_error message),
        record w { external = (env.destroy session.connection w.external).1 },
      )
  unfolding destroy_connection
  destroy_session_refused id w session message found refused =
      let after_destroy = (env.destroy session.connection w.external).1 in
      found_lem id w session found
      ∙ ap
          (λ r.
            after (delivered r, record w { external = after_destroy })
              (λ _. update_sessions (erase id)))
          refused
