-- ===== src/Bot/Sending.antt =====
-- discord-jockey/src/util/helpers.ts, `withConnectError`, around a call that is answered: what the
-- interaction is sent.
use radio_jockey.Base.{
  Option, none, some, List, [], ◌∷◌, ◌++◌, Text, Outcome, ok, thrown, ◌≡◌, refl, sym,
}
use mathlib.Core.List.{append-nil}
use radio_jockey.Proto.Service.{Code, Failure, connect_error, other_error, Rpc}
use radio_jockey.Bot.Logger.{Metadata}
use radio_jockey.Bot.Effects.{
  Env, World, M, ◌>>=◌, ◌>>◌, after, handle, delivered, call, send, with_connect_error,
  ConnectError, info, error,
}

-- Anything but a ConnectError.
abbrev pub IsPlain : {A : Type 0} → Outcome Failure A → Type 0
IsPlain (ok a) = Unit {0}
IsPlain (thrown (connect_error code raw)) = ⊥
IsPlain (thrown (other_error message)) = Unit {0}

-- The messages for an outcome of a call: those for a response, one for a ConnectError, none for a
-- failure of another kind, which is rethrown.
unfoldable pub answers :
    {O : Type 0} → (O → List Text) → (Code → Text) → Outcome Failure O → List Text
answers t u (ok o) = t o
answers t u (thrown (connect_error code raw)) = u code ∷ []
answers t u (thrown (other_error message)) = []

-- What is no ConnectError is not handled.
pub handle_plain :
    {S A : Type 0} (f : ConnectError → M S A) (p : Outcome Failure A × World S)
    → IsPlain p.0
    → handle f p ≡ p
handle_plain f (ok a, w) h = refl
handle_plain f (thrown (connect_error code raw), w) h = absurd h
handle_plain f (thrown (other_error message), w) h = refl

module _ {S : Type 0} where
  -- An action that tries these messages, and throws no ConnectError.
  pub record Sends (m : M S (Unit {0})) (ts : List Text) : Type 0 where
    pub sent : (w : World S) → (m w).1.sent ≡ w.sent ++ ts
    pub plain : (w : World S) → IsPlain (m w).0

  pub info-Sends :
      (message : Text) (metadata : Metadata) {m : M S (Unit {0})} {ts : List Text}
      → Sends m ts
      → Sends (info message metadata >> m) ts
  unfolding info
  info-Sends message metadata h = record { sent = λ w. h.sent _; plain = λ w. h.plain _ }

  pub error-Sends :
      (message : Text) (metadata : Metadata) {m : M S (Unit {0})} {ts : List Text}
      → Sends m ts
      → Sends (error message metadata >> m) ts
  unfolding error
  error-Sends message metadata h = record { sent = λ w. h.sent _; plain = λ w. h.plain _ }

  module _ (env : Env S) where
    pub send-Sends : (t : Text) → Sends (send env t) (t ∷ [])
    unfolding send
    send-Sends t = record { sent = λ w. refl; plain = λ w. plain (env.deliver t w.external).0 }
      where
        plain : (r : Option Text) → IsPlain (delivered r)
        plain none = tt
        plain (some message) = tt

    module _ {I O : Type 0} (method : Rpc S I O) (request : I) (k : O → M S (Unit {0}))
        (t : O → List Text) (f : ConnectError → M S (Unit {0})) (u : Code → Text)
        (k-Sends : (o : O) → Sends (k o) (t o))
        (f-Sends : (err : ConnectError) → Sends (f err) (u err.code ∷ [])) where
      answered :
          (r : Outcome Failure O) (w : World S)
          → (handle f (after (r, w) k)).1.sent ≡ w.sent ++ answers t u r
      unfolding answers
      answered (ok o) w = rw (handle_plain f (k o w) ((k-Sends o).plain w)) ((k-Sends o).sent w)
      answered (thrown (connect_error code raw)) w = (f-Sends _).sent w
      answered (thrown (other_error message)) w = sym (append-nil w.sent)

      -- A call under `withConnectError` is answered by the messages that its outcome calls for.
      pub with_connect_error-sent :
          (w : World S)
          → (with_connect_error (call env method request >>= k) f w).1.sent
            ≡ w.sent ++ answers t u (method request [] w.external).0
      unfolding with_connect_error call
      with_connect_error-sent w = answered (method request [] w.external).0 _
