-- ===== src/Bot/Auth.antt =====
-- discord-jockey/src/connect/auth/auth.ts: calls that want an auth token.
use radio_jockey.Base.{Option, none, some, [], ◌∷◌, Text, Bool, true, false, if◌then◌else◌}
use radio_jockey.Proto.Messages.{
  RespondNonceResponse, RequestNonceRequest, DeleteSessionAuthResponse,
}
use radio_jockey.Proto.Service.{Code, unauthenticated}
use radio_jockey.Bot.Sessions.{get_auth_token, set_auth_token}
use radio_jockey.Bot.Effects.{
  Env, M, ◌>>=◌, ◌>>◌, pure, throw, call, call_authorized, with_connect_error, failure_of,
  read_sessions, update_sessions,
}

abbrev pub is_unauthenticated : Code → Bool
is_unauthenticated unauthenticated = true
is_unauthenticated _ = false

-- A token that is absent or empty is falsy.
abbrev pub truthy : Option Text → Option Text
truthy none = none
truthy (some []) = none
truthy (some (c ∷ s)) = some (c ∷ s)

module _ {S : Type 0} (env : Env S) where
  -- `sign` may throw; it touches nothing.
  unfoldable pub sign_nonce : Text → M S Text
  sign_nonce nonce w = (env.sign nonce, w)

  unfoldable pub keep_token : Text → RespondNonceResponse → M S Text
  keep_token session_id response = do
    update_sessions (set_auth_token session_id response.auth_token)
    pure response.auth_token

  unfoldable pub acquire_auth_token : Text → M S Text
  unfolding sign_nonce keep_token
  acquire_auth_token session_id = do
    challenge ← call env env.client.request_nonce RequestNonceRequest.empty
    pass_key ← sign_nonce challenge.nonce
    response ← call env env.client.respond_nonce (record { pass_key = pass_key })
    keep_token session_id response

  abbrev pub with_fresh : {A : Type 0} → Text → (Text → M S A) → M S A
  with_fresh session_id fn = do auth_token ← acquire_auth_token session_id; fn auth_token

  abbrev pub with_cached : {A : Type 0} → Text → (Text → M S A) → Option Text → M S A
  with_cached session_id fn (some cached) = with_connect_error (fn cached) (λ err.
      if is_unauthenticated err.code then with_fresh session_id fn else throw (failure_of err))
  with_cached session_id fn none = with_fresh session_id fn

  unfoldable pub with_auth : {A : Type 0} → Text → (Text → M S A) → M S A
  unfolding with_connect_error
  with_auth session_id fn = do
    cached ← read_sessions (get_auth_token session_id)
    with_cached session_id fn (truthy cached)

  unfoldable pub delete_session : Text → M S DeleteSessionAuthResponse
  unfolding with_auth
  delete_session session_id =
      with_auth session_id
        (call_authorized env env.client.delete_session_auth (record { session_id = session_id }))
