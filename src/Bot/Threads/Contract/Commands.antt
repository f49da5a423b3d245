-- ===== src/Bot/Threads/Contract/Commands.antt =====
-- discord-jockey/src/discord/command: the commands ping, skip, queue, remove and stop keep the
-- contract.
use radio_jockey.Base.{
  ℕ, ◌+◌, ◌-◌, ◌≤◌, Bool, false, Option, none, some, Text, ℤ, refl, Outcome, ok, thrown, arith,
  if-intro, if◌then◌else◌,
}
use radio_jockey.Proto.Messages.{DeleteSessionAuthResponse}
use radio_jockey.Proto.Methods.{Method}
use radio_jockey.Proto.Service.{
  Failure, other_error, Code, not_found, failed_precondition, invalid_argument,
}
use radio_jockey.Bot.Auth.{truthy, is_unauthenticated}
use radio_jockey.Bot.Commands.{Interaction, get_session_id}
use radio_jockey.Bot.Effects.{Env, ConnectError, failure_of}
use radio_jockey.Bot.Threads.{
  Thread, throw, sign_nonce, set_auth_token, get_auth_token, call_authorized, ◌>>=◌,
}
use radio_jockey.Bot.Threads.Auth.{
  keep_token, acquire_auth_token, with_fresh, with_cached, with_auth, revoke, delete_session,
}
use radio_jockey.Bot.Threads.Commands.{
  handle_ping, skip_failed, handle_skip, queue_failed, handle_queue, get_position, remove_failed,
  remove_at, handle_remove, stop_failed, handle_stop,
}
use radio_jockey.Bot.Threads.Contract.{
  Obeys, Post, Caught, pure-Obeys, throw-Obeys, bind-Obeys, perform-Obeys, with_connect_error-Obeys,
}
use radio_jockey.Bot.Threads.Contract.Steps.{
  returned, any, caught, info-Obeys, call-Obeys, destroy_session-Obeys, Ends, caught_ends,
  reply-Obeys, said-Obeys, failed-Obeys, answered-Obeys,
}

module _ {S : Type 0} (env : Env S) where
  pub handle_ping-Obeys : {id : Text} {n : ℕ} → 2 ≤ n → Obeys id false n (handle_ping env) Ends
  unfolding handle_ping
  handle_ping-Obeys left =
      info-Obeys _ _ _
        (answered-Obeys Method.ping _ _ _ _ _ tt left (λ err. failed-Obeys _ _ _ (omega arith)))

  module _ {n : ℕ} (left : 1 ≤ n) where
    skip_failed-Obeys :
        (id : Text) (err : ConnectError) (code : Code)
        → Obeys id false n (skip_failed env id err code) Ends
    unfolding skip_failed
    skip_failed-Obeys id err not_found = said-Obeys _ _ _ left
    skip_failed-Obeys id err failed_precondition = said-Obeys _ _ _ left
    skip_failed-Obeys id err _ = failed-Obeys _ _ _ left

    queue_failed-Obeys :
        (id : Text) (err : ConnectError) (code : Code)
        → Obeys id false n (queue_failed env id err code) Ends
    unfolding queue_failed
    queue_failed-Obeys id err not_found = said-Obeys _ _ _ left
    queue_failed-Obeys id err _ = failed-Obeys _ _ _ left

    remove_failed-Obeys :
        (id : Text) (index : ℤ) (err : ConnectError) (code : Code)
        → Obeys id false n (remove_failed env id index err code) Ends
    unfolding remove_failed
    remove_failed-Obeys id index err not_found = said-Obeys _ _ _ left
    remove_failed-Obeys id index err invalid_argument = said-Obeys _ _ _ left
    remove_failed-Obeys id index err _ = failed-Obeys _ _ _ left

    stop_failed-Obeys :
        (id : Text) (err : ConnectError) (code : Code)
        → Obeys id false n (stop_failed env id err code) Ends
    unfolding stop_failed
    stop_failed-Obeys id err not_found = destroy_session-Obeys _ (said-Obeys _ _ _ left) (λ _. tt)
    stop_failed-Obeys id err _ = failed-Obeys _ _ _ left

  pub handle_skip-Obeys :
      {n : ℕ} (i : Interaction)
      → 2 ≤ n
      → Obeys (get_session_id env i) false n (handle_skip env i) Ends
  unfolding handle_skip
  handle_skip-Obeys i left = info-Obeys _ _ _ (
      answered-Obeys Method.skip_track _ _ _ _ _ refl left
        (λ err. skip_failed-Obeys (omega arith) _ err err.code))

  pub handle_queue-Obeys :
      {n : ℕ} (i : Interaction)
      → 2 ≤ n
      → Obeys (get_session_id env i) false n (handle_queue env i) Ends
  unfolding handle_queue
  handle_queue-Obeys i left = info-Obeys _ _ _ (
      answered-Obeys Method.list_queue _ _ _ _ _ refl left
        (λ err. queue_failed-Obeys (omega arith) _ err err.code))

  remove_at-Obeys :
      {n : ℕ} (id : Text) (index : ℤ) → 2 ≤ n → Obeys id false n (remove_at env id index) Ends
  unfolding remove_at
  remove_at-Obeys id index left = info-Obeys _ _ _ (
      answered-Obeys Method.remove_track _ _ _ _ _ refl left
        (λ err. remove_failed-Obeys (omega arith) id index err err.code))

  position-Obeys :
      {B : Type 0} {id : Text} {n : ℕ} (position : Option ℤ) (f : ℤ → Thread B) {Q : Post B}
      → ((p : ℤ) → Obeys id false n (f p) Q)
      → ((message : Text) → Q false n (thrown (other_error message)))
      → Obeys id false n (get_position env position >>= f) Q
  unfolding get_position
  position-Obeys {id = id} none f h k = bind-Obeys id (throw-Obeys id (k _))
  position-Obeys {id = id} (some p) f h k = bind-Obeys id (pure-Obeys id (h p))

  pub handle_remove-Obeys :
      {n : ℕ} (i : Interaction)
      → 2 ≤ n
      → Obeys (get_session_id env i) false n (handle_remove env i) Ends
  unfolding handle_remove
  handle_remove-Obeys i left = position-Obeys i.position _ (λ p. remove_at-Obeys _ _ left) (λ _. tt)

-- With `n` waits to spare, whatever the outcome.
abbrev pub Spares : {A : Type 0} → Bool → ℕ → Post A → Type 0
Spares {A} b n Q = (m : ℕ) → n ≤ m → (r : Outcome Failure A) → Q b m r

module _ (id : Text) {b : Bool} where
  acquire_auth_token-Obeys :
      (n m : ℕ) {Q : Post Text} → Spares b n Q → n + 2 ≤ m → Obeys id b m (acquire_auth_token id) Q
  unfolding acquire_auth_token keep_token
  acquire_auth_token-Obeys n m spares left =
      call-Obeys Method.request_nonce _ _ tt (omega arith)
        (λ challenge. bind-Obeys id (
          perform-Obeys id (sign_nonce _) tt tt tt (λ r _.
            any r
              (λ pass_key.
                call-Obeys Method.respond_nonce _ _ tt (omega arith)
                  (λ response. bind-Obeys id (
                    perform-Obeys id (set_auth_token _ _) refl tt tt (λ u possible.
                      returned u possible (λ _. pure-Obeys id (spares _ (omega arith) _)))))
                  (λ e. spares _ (omega arith) _))
              (λ e. spares _ (omega arith) _))))
        (λ e. spares _ (omega arith) _)

  revoke-Obeys :
      (token : Text) (n k : ℕ) {Q : Post DeleteSessionAuthResponse}
      → Spares b n Q
      → n + 1 ≤ k
      → Obeys id b k (revoke id token) Q
  revoke-Obeys token n k spares left =
      perform-Obeys id
        (call_authorized Method.delete_session_auth (record { session_id = id }) token) refl tt
        (omega arith) (λ r _. spares (k - 1) (omega arith) r)

  module _ {n : ℕ} {Q : Post DeleteSessionAuthResponse} (spares : Spares b n Q) where
    with_fresh-Obeys : (m : ℕ) → n + 3 ≤ m → Obeys id b m (with_fresh id (revoke id)) Q
    with_fresh-Obeys m left = bind-Obeys id (
        acquire_auth_token-Obeys (n + 1) m
          (λ k enough r.
            any r (λ token. revoke-Obeys token n k spares enough) (λ e. spares k (omega arith) _))
          (omega arith))

    renew-Obeys :
        (k : ℕ)
        → n + 3 ≤ k
        → (err : ConnectError)
        → Obeys id b k
            (if is_unauthenticated err.code
              then with_fresh id (revoke id)
              else throw (failure_of err))
            Q
    renew-Obeys k enough err =
        if-intro (λ p. Obeys id b k p Q) (is_unauthenticated err.code)
          (λ _. with_fresh-Obeys k enough) (λ _. throw-Obeys id (spares k (omega arith) _))

    with_cached-Obeys :
        (m : ℕ) (cached : Option Text)
        → n + 4 ≤ m
        → Obeys id b m (with_cached id (revoke id) cached) Q
    with_cached-Obeys m none left = with_fresh-Obeys m (omega arith)
    with_cached-Obeys m (some cached) left =
        with_connect_error-Obeys id _
          (revoke-Obeys cached (n + 3) m (λ k enough r. settled k enough r) (omega arith))
      where
        settled :
            (k : ℕ)
            → n + 3 ≤ k
            → (r : Outcome Failure DeleteSessionAuthResponse)
            → Caught id
                (λ err.
                  if is_unauthenticated err.code
                  then with_fresh id (revoke id)
                  else throw (failure_of err))
                Q
                b
                k
                r
        settled k enough (ok a) = spares k (omega arith) _
        settled k enough (thrown e) =
            caught (renew-Obeys k enough) (λ message. spares k (omega arith) _) e

    delete_session-Obeys : (m : ℕ) → n + 4 ≤ m → Obeys id b m (delete_session id) Q
    unfolding delete_session with_auth
    delete_session-Obeys m left = bind-Obeys id (
        perform-Obeys id (get_auth_token id) refl tt tt
          (λ r possible. returned r possible (λ cached. with_cached-Obeys m (truthy cached) left)))

pub handle_stop-Obeys :
    {S : Type 0} (env : Env S) {n : ℕ} (i : Interaction)
    → 5 ≤ n
    → Obeys (get_session_id env i) false n (handle_stop env i) Ends
unfolding handle_stop
handle_stop-Obeys env {n} i left =
    let id = get_session_id env i in
    info-Obeys _ _ _ (
      with_connect_error-Obeys id (λ err. stop_failed env id err err.code)
        (bind-Obeys id (
          delete_session-Obeys id {n = 1}
            (λ k enough r.
              any r
                (λ _.
                  destroy_session-Obeys _
                    (info-Obeys _ _ _ (
                      reply-Obeys _ enough
                        (caught_ends id (k - 1) (λ err. stop_failed env id err err.code))))
                    (λ _. tt))
                (caught (λ err. stop_failed-Obeys env enough id err err.code) (λ _. tt)))
            n left)))
