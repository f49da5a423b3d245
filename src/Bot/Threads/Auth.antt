-- ===== src/Bot/Threads/Auth.antt =====
-- discord-jockey/src/connect/auth/auth.ts: calls that want an auth token, in a thread.
use radio_jockey.Base.{Option, none, some, Text, if◌then◌else◌}
use radio_jockey.Proto.Messages.{
  RespondNonceResponse, RequestNonceRequest, DeleteSessionAuthResponse,
}
use radio_jockey.Proto.Methods.{Method}
use radio_jockey.Bot.Auth.{is_unauthenticated, truthy}
use radio_jockey.Bot.Effects.{failure_of}
use radio_jockey.Bot.Threads.{
  Thread, pure, throw, perform, call, call_authorized, sign_nonce, get_auth_token, set_auth_token,
  with_connect_error, ◌>>=◌, ◌>>◌,
}

unfoldable pub keep_token : Text → RespondNonceResponse → Thread Text
keep_token session_id response = do
  perform (set_auth_token session_id response.auth_token)
  pure response.auth_token

unfoldable pub acquire_auth_token : Text → Thread Text
unfolding keep_token
acquire_auth_token session_id = do
  challenge ← perform (call Method.request_nonce RequestNonceRequest.empty)
  pass_key ← perform (sign_nonce challenge.nonce)
  response ← perform (call Method.respond_nonce (record { pass_key = pass_key }))
  keep_token session_id response

abbrev pub with_fresh : {A : Type 0} → Text → (Text → Thread A) → Thread A
with_fresh session_id fn = do auth_token ← acquire_auth_token session_id; fn auth_token

abbrev pub with_cached : {A : Type 0} → Text → (Text → Thread A) → Option Text → Thread A
with_cached session_id fn (some cached) = with_connect_error (fn cached) (λ err.
    if is_unauthenticated err.code then with_fresh session_id fn else throw (failure_of err))
with_cached session_id fn none = with_fresh session_id fn

unfoldable pub with_auth : {A : Type 0} → Text → (Text → Thread A) → Thread A
unfolding with_connect_error
with_auth session_id fn = do
  cached ← perform (get_auth_token session_id)
  with_cached session_id fn (truthy cached)

-- The call that `deleteSession` makes with a token.
abbrev pub revoke : (id token : Text) → Thread DeleteSessionAuthResponse
revoke id token =
    perform (call_authorized Method.delete_session_auth (record { session_id = id }) token)

unfoldable pub delete_session : Text → Thread DeleteSessionAuthResponse
unfolding with_auth
delete_session session_id = with_auth session_id (revoke session_id)
