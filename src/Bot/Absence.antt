-- ===== src/Bot/Absence.antt =====
-- discord-jockey/src/discord/command/play.ts, `getOrCreateSession`: a guild without a session stays
-- without one.
use radio_jockey.Base.{true, none, Text, Outcome, ok, thrown, ◌≡◌, lookup}
use radio_jockey.Proto.Service.{Rpc, Failure, connect_error, other_error, already_exists, Code}
use radio_jockey.Bot.Sessions.{Sessions}
use radio_jockey.Bot.Effects.{
  Env, World, M, after, send, call, info, handle, with_connect_error, ConnectError,
}
use radio_jockey.Bot.Play.{get_or_create_session, create_failed}

module _ {S : Type 0} (env : Env S) (id : Text) where
  module _
      (quiet : (s : S) (m : Sessions)
        → lookup id m ≡ none
        → lookup id (env.meanwhile s m) ≡ none) where
    pub send_absent :
        (t : Text) (w : World S)
        → lookup id w.sessions ≡ none
        → lookup id (send env t w).1.sessions ≡ none
    unfolding send
    send_absent t w h = quiet _ w.sessions h

    call_absent :
        {I O : Type 0} (method : Rpc S I O) (request : I) (w : World S)
        → lookup id w.sessions ≡ none
        → lookup id (call env method request w).1.sessions ≡ none
    unfolding call
    call_absent method request w h = quiet _ w.sessions h

    after_absent :
        {A B : Type 0} (r : Outcome Failure A × World S) (f : A → M S B)
        → lookup id r.1.sessions ≡ none
        → ((a : A) (w : World S)
            → lookup id w.sessions ≡ none
            → lookup id (f a w).1.sessions ≡ none)
        → lookup id (after r f).1.sessions ≡ none
    after_absent (ok a, w) f h k = k a w h
    after_absent (thrown e, w) f h k = h

    create_failed_absent :
        (err : ConnectError) (code : Code) (w : World S)
        → lookup id w.sessions ≡ none
        → lookup id (create_failed env id err code w).1.sessions ≡ none
    unfolding create_failed info
    create_failed_absent err already_exists w h =
        after_absent (call env env.client.get_session (record { session_id = id }) w) _
          (call_absent env.client.get_session _ w h) (λ o v k. k)
    create_failed_absent err _ w h = h

    handled_absent :
        {A : Type 0} (f : ConnectError → M S A) (r : Outcome Failure A × World S)
        → lookup id r.1.sessions ≡ none
        → ((err : ConnectError) (w : World S)
            → lookup id w.sessions ≡ none
            → lookup id (f err w).1.sessions ≡ none)
        → lookup id (handle f r).1.sessions ≡ none
    handled_absent f (ok a, w) h k = h
    handled_absent f (thrown (connect_error code raw), w) h k = k _ w h
    handled_absent f (thrown (other_error message), w) h k = h

    pub get_or_create_session_absent :
        (w : World S)
        → lookup id w.sessions ≡ none
        → lookup id (get_or_create_session env id w).1.sessions ≡ none
    unfolding get_or_create_session with_connect_error info
    get_or_create_session_absent w h =
        handled_absent (λ err. create_failed env id err err.code) _
          (after_absent
            (call env env.client.create_session (record { session_id = id; archive = true }) w) _
            (call_absent env.client.create_session _ w h) (λ o v k. k))
          (λ err v k. create_failed_absent err err.code v k)
