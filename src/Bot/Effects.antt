-- ===== src/Bot/Effects.antt =====
-- The world that the bot's handlers run in: its own table of sessions and log, and what is outside
-- of it. Also discord-jockey/src/util/logger.ts, `logger`, discord-jockey/src/util/helpers.ts,
-- `withConnectError`, and `destroySession` of discord-jockey/src/discord/sessions.ts.
use radio_jockey.Base.{
  ℕ, Option, none, some, List, [], ◌∷◌, ◌++◌, Text, text, lookup, erase, Outcome, ok, thrown, ◌≡◌,
  refl, arith,
}
use radio_jockey.Proto.Service.{RadioClient, Rpc, Code, Failure, connect_error, other_error}
use radio_jockey.Bot.Logger.{Metadata, format}
use radio_jockey.Bot.Sessions.{Session, Sessions}

-- `sent` lists the messages that the interaction was answered with, or that were tried.
pub record World (S : Type 0) : Type 0 where
  pub sessions : Sessions
  pub log : List Text
  pub sent : List Text
  pub external : S

-- What the libraries and the runtime do. A message that Discord does not take makes discord.js
-- throw an error of its own, never a ConnectError. While a call is awaited other handlers may
-- change the table: `meanwhile` says what they make of it. `join` and `enters_ready` are
-- `joinVoiceChannel` and `entersState`; `open_stream` makes a buffer and the request that fills it,
-- under one number, and `close_stream` destroys the request.
pub record Env (S : Type 0) : Type 0 where
  pub client : RadioClient S
  pub deliver : Text → S → Option Text × S
  pub destroy : ℕ → S → Option Text × S
  pub meanwhile : S → Sessions → Sessions
  pub join : Text → S → ℕ × S
  pub enters_ready : ℕ → S → Option Text × S
  pub open_stream : Text → S → ℕ × S
  pub close_stream : ℕ → S → S
  pub icecast_url : Text
  pub lower : Text → Text
  pub sign : Text → Outcome Failure Text
  pub show_error : Failure → Text

-- A handler: it returns or throws, and leaves a world.
abbrev pub M : Type 0 → Type 0 → Type 0
M S A = World S → Outcome Failure A × World S

abbrev pub after :
    {S A B : Type 0} → Outcome Failure A × World S → (A → M S B) → Outcome Failure B × World S
after (ok a, w) f = f a w
after (thrown e, w) f = (thrown e, w)

infixl 5 ◌>>=◌ ◌>>◌
abbrev pub ◌>>=◌ : {S A B : Type 0} → M S A → (A → M S B) → M S B
◌>>=◌ m f w = after (m w) f

abbrev pub ◌>>◌ : {S B : Type 0} → M S (Unit {0}) → M S B → M S B
m >> k = m >>= λ _. k

abbrev pub pure : {S A : Type 0} → A → M S A
pure a w = (ok a, w)

abbrev pub throw : {S A : Type 0} → Failure → M S A
throw e w = (thrown e, w)

-- Inversion of a chain that returns.
pub after-eq-ok :
    {S A B : Type 0} (r : Outcome Failure A × World S) (f : A → M S B) {b : B} {w' : World S}
    → after r f ≡ (ok b, w')
    → (a : A) × (w : World S) × (r ≡ (ok a, w)) × (f a w ≡ (ok b, w'))
after-eq-ok (ok a, w) f e = (a, w, refl, e)
after-eq-ok (thrown x, w) f e = absurd (ground arith)

-- What `withConnectError` hands to its second argument.
pub record ConnectError : Type 0 where
  pub code : Code
  pub raw_message : Text

abbrev pub failure_of : ConnectError → Failure
failure_of err = connect_error err.code err.raw_message

-- What a call of discord.js comes to: `none` is success, a text the message of its error.
abbrev pub delivered : Option Text → Outcome Failure (Unit {0})
delivered none = ok tt
delivered (some message) = thrown (other_error message)

module _ {S : Type 0} where
  -- A failed `fn` is handled if the failure is a ConnectError, and rethrown otherwise.
  abbrev pub handle :
      {A : Type 0}
      → (ConnectError → M S A)
      → Outcome Failure A × World S
      → Outcome Failure A × World S
  handle on_error (ok a, w) = (ok a, w)
  handle on_error (thrown (connect_error code raw), w) =
      on_error (record { code = code; raw_message = raw }) w
  handle on_error (thrown (other_error message), w) = (thrown (other_error message), w)

  unfoldable pub with_connect_error : {A : Type 0} → M S A → (ConnectError → M S A) → M S A
  with_connect_error fn on_error w = handle on_error (fn w)

  print : Text → Text → Metadata → M S (Unit {0})
  print level message metadata w =
      (ok tt, record w { log = w.log ++ format level message metadata ∷ [] })

  unfoldable pub info : Text → Metadata → M S (Unit {0})
  unfolding print
  info message metadata = print (text "INFO") message metadata

  unfoldable pub error : Text → Metadata → M S (Unit {0})
  unfolding print
  error message metadata = print (text "ERROR") message metadata

  unfoldable pub warn : Text → Metadata → M S (Unit {0})
  unfolding print
  warn message metadata = print (text "WARN") message metadata

  -- `try { … } catch`: what is thrown becomes a value.
  abbrev pub caught :
      {A : Type 0} → Outcome Failure A × World S → Outcome Failure (Outcome Failure A) × World S
  caught (r, w) = (ok r, w)

  abbrev pub attempt : {A : Type 0} → M S A → M S (Outcome Failure A)
  attempt m w = caught (m w)

  -- The table of sessions is read and written at once.
  abbrev pub read_sessions : {A : Type 0} → (Sessions → A) → M S A
  read_sessions f w = (ok (f w.sessions), w)

  abbrev pub update_sessions : (Sessions → Sessions) → M S (Unit {0})
  update_sessions f w = (ok tt, record w { sessions = f w.sessions })

  module _ (env : Env S) where
    abbrev pub settle : {A : Type 0} → World S → Outcome Failure A × S → Outcome Failure A × World S
    settle w (r, s) = (r, record w { sessions = env.meanwhile s w.sessions; external = s })

    -- An awaited call of a method of the service.
    unfoldable pub call : {I O : Type 0} → Rpc S I O → I → M S O
    call method request w = settle w (method request [] w.external)

    -- The same with an authorization header.
    unfoldable pub call_authorized : {I O : Type 0} → Rpc S I O → I → Text → M S O
    call_authorized method request token w =
        settle w (method request ((text "authorization", text "Bearer " ++ token) ∷ []) w.external)

    -- `interaction.reply` and `interaction.followUp`.
    unfoldable pub send : Text → M S (Unit {0})
    send t w =
        let (r, s) = env.deliver t w.external in
        settle (record w { sent = w.sent ++ t ∷ [] }) (delivered r, s)

    -- `connection.destroy()`, which throws on a connection that is destroyed already.
    unfoldable pub destroy_connection : ℕ → M S (Unit {0})
    destroy_connection connection w =
        let (r, s) = env.destroy connection w.external in (delivered r, record w { external = s })

    abbrev pub destroy_found : Option Session → M S (Unit {0})
    destroy_found none = pure tt
    destroy_found (some session) = destroy_connection session.connection

    unfoldable pub destroy_session : Text → M S (Unit {0})
    unfolding destroy_connection
    destroy_session guild_id = do
      found ← read_sessions (lookup guild_id)
      destroy_found found
      update_sessions (erase guild_id)
