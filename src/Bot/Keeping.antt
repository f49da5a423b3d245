-- ===== src/Bot/Keeping.antt =====
-- discord-jockey/src: handlers that keep something of the table of sessions.
use radio_jockey.Base.{ℕ, Text, none, some, ok, thrown, Outcome, erase, Option}
use radio_jockey.Proto.Service.{Rpc, Failure, connect_error, other_error}
use radio_jockey.Bot.Logger.{Metadata}
use radio_jockey.Bot.Sessions.{Session, Sessions}
use radio_jockey.Bot.Effects.{
  Env, World, M, after, ◌>>=◌, pure, throw, call, call_authorized, send, info, error, handle,
  with_connect_error, ConnectError, attempt, caught, read_sessions, update_sessions,
  destroy_connection, destroy_found, destroy_session,
}

-- A handler keeps a property of the table, whether it returns or throws.
pub record Keeps {S A : Type 0} (P : Sessions → Type 0) (m : M S A) : Type 0 where
  pub kept : (w : World S) → P w.sessions → P (m w).1.sessions

-- What other handlers do meanwhile keeps it.
abbrev pub IsQuiet : {S : Type 0} → Env S → (Sessions → Type 0) → Type 0
IsQuiet {S} env P = (s : S) (m : Sessions) → P m → P (env.meanwhile s m)

caught-Keeps :
    {S A : Type 0} (P : Sessions → Type 0) (r : Outcome Failure A × World S)
    → P r.1.sessions
    → P (caught r).1.sessions
caught-Keeps P (r, v) h = h

module _ {S : Type 0} {P : Sessions → Type 0} where
  after-Keeps :
      {A B : Type 0} (r : Outcome Failure A × World S) (f : A → M S B)
      → P r.1.sessions
      → ((a : A) → Keeps P (f a))
      → P (after r f).1.sessions
  after-Keeps (ok a, w) f h k = (k a).kept w h
  after-Keeps (thrown e, w) f h k = h

  pub bind-Keeps :
      {A B : Type 0} {m : M S A} {f : A → M S B}
      → Keeps P m
      → ((a : A) → Keeps P (f a))
      → Keeps P (m >>= f)
  bind-Keeps {m = m} {f = f} k l = record { kept = λ w h. after-Keeps (m w) f (k.kept w h) l }

  pub pure-Keeps : {A : Type 0} {a : A} → Keeps P (pure {S = S} a)
  pure-Keeps = record { kept = λ w h. h }

  pub throw-Keeps : {A : Type 0} {e : Failure} → Keeps P (throw {S = S} {A = A} e)
  throw-Keeps = record { kept = λ w h. h }

  pub info-Keeps : (t : Text) (d : Metadata) → Keeps P (info {S = S} t d)
  unfolding info
  info-Keeps t d = record { kept = λ w h. h }

  pub error-Keeps : (t : Text) (d : Metadata) → Keeps P (error {S = S} t d)
  unfolding error
  error-Keeps t d = record { kept = λ w h. h }

  pub read-Keeps : {A : Type 0} (f : Sessions → A) → Keeps P (read_sessions {S = S} f)
  read-Keeps f = record { kept = λ w h. h }

  pub update-Keeps :
      (f : Sessions → Sessions)
      → ((m : Sessions) → P m → P (f m))
      → Keeps P (update_sessions {S = S} f)
  update-Keeps f k = record { kept = λ w h. k w.sessions h }

  handle-Keeps :
      {A : Type 0} (f : ConnectError → M S A) (r : Outcome Failure A × World S)
      → P r.1.sessions
      → ((err : ConnectError) → Keeps P (f err))
      → P (handle f r).1.sessions
  handle-Keeps f (ok a, w) h k = h
  handle-Keeps f (thrown (connect_error code raw), w) h k = (k _).kept w h
  handle-Keeps f (thrown (other_error message), w) h k = h

  pub with_connect_error-Keeps :
      {A : Type 0} {m : M S A} {f : ConnectError → M S A}
      → Keeps P m
      → ((err : ConnectError) → Keeps P (f err))
      → Keeps P (with_connect_error m f)
  unfolding with_connect_error
  with_connect_error-Keeps {m = m} {f = f} k l = record {
    kept = λ w h. handle-Keeps f (m w) (k.kept w h) l;
  }

  pub attempt-Keeps : {A : Type 0} {m : M S A} → Keeps P m → Keeps P (attempt m)
  attempt-Keeps {m = m} k = record { kept = λ w h. caught-Keeps P (m w) (k.kept w h) }

  module _ (env : Env S) where
    pub destroy_connection-Keeps : (connection : ℕ) → Keeps P (destroy_connection env connection)
    unfolding destroy_connection
    destroy_connection-Keeps connection = record { kept = λ w h. h }

    destroy_found-Keeps : (found : Option Session) → Keeps P (destroy_found env found)
    destroy_found-Keeps none = pure-Keeps
    destroy_found-Keeps (some session) = destroy_connection-Keeps session.connection

    pub destroy_session-Keeps :
        (id : Text) → ((m : Sessions) → P m → P (erase id m)) → Keeps P (destroy_session env id)
    unfolding destroy_session
    destroy_session-Keeps id erased =
        bind-Keeps (read-Keeps _)
          (λ found. bind-Keeps (destroy_found-Keeps found) (λ _. update-Keeps _ erased))

  module _ (env : Env S) (quiet : IsQuiet env P) where
    pub call-Keeps :
        {I O : Type 0} (method : Rpc S I O) (request : I) → Keeps P (call env method request)
    unfolding call
    call-Keeps method request = record { kept = λ w h. quiet _ w.sessions h }

    pub call_authorized-Keeps :
        {I O : Type 0} (method : Rpc S I O) (request : I) (token : Text)
        → Keeps P (call_authorized env method request token)
    unfolding call_authorized
    call_authorized-Keeps method request token = record { kept = λ w h. quiet _ w.sessions h }

    pub send-Keeps : (t : Text) → Keeps P (send env t)
    unfolding send
    send-Keeps t = record { kept = λ w h. quiet _ w.sessions h }
