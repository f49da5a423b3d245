-- ===== src/Bot/Threads/Contract/Playing.antt =====
-- discord-jockey/src/discord/command/play.ts and discord.ts: the play command and the dispatcher keep
-- the contract.
use radio_jockey.Base.{
  ℕ, ◌+◌, ◌-◌, ◌≤◌, Bool, true, false, Option, none, some, Text, refl, Outcome, ok, thrown, arith,
}
use radio_jockey.Proto.Messages.{Track}
use radio_jockey.Proto.Methods.{Method}
use radio_jockey.Proto.Service.{
  Failure, other_error, connect_error, Code, not_found, invalid_argument, resource_exhausted,
  already_exists,
}
use radio_jockey.Bot.Effects.{Env, ConnectError}
use radio_jockey.Bot.Playback.{Playback}
use radio_jockey.Bot.Threads.{
  Thread, attempt, perform, reply, follow_up, join_channel, await_ready, destroy_connection,
  begin_stream,
}
use radio_jockey.Bot.Threads.Play.{
  create_failed, get_or_create_session, track_added, add_failed, add_track, reply_and_add,
  or_destroy, connect_to_channel, start_playback, start_in,
}
use radio_jockey.Bot.Threads.Contract.{
  Obeys, Post, Caught, IsOwn, IsFresh, IsStarted, pure-Obeys, throw-Obeys, bind-Obeys,
  perform-Obeys, attempt-Obeys, with_connect_error-Obeys,
}
use radio_jockey.Bot.Threads.Contract.Steps.{
  returned, own, any, caught, info-Obeys, error-Obeys, call-Obeys,
}
use radio_jockey.Bot.Threads.Contract.Commands.{Spares}

module _ {S : Type 0} (env : Env S) (id : Text) where
  module _ {b : Bool} {n : ℕ} {Q : Post Text} (spares : Spares b n Q) where
    create_failed-Obeys :
        (k : ℕ) (err : ConnectError) (code : Code)
        → n + 1 ≤ k
        → Obeys id b k (create_failed env id err code) Q
    unfolding create_failed
    create_failed-Obeys k err already_exists left =
        call-Obeys Method.get_session _ _ refl (omega arith)
          (λ _. info-Obeys _ _ _ (pure-Obeys id (spares _ (omega arith) _)))
          (λ e. spares _ (omega arith) _)
    create_failed-Obeys k err _ left = throw-Obeys id (spares _ (omega arith) _)

    pub get_or_create_session-Obeys :
        (m : ℕ) → n + 2 ≤ m → Obeys id b m (get_or_create_session env id) Q
    unfolding get_or_create_session
    get_or_create_session-Obeys m left =
        with_connect_error-Obeys id (λ err. create_failed env id err err.code)
          (call-Obeys Method.create_session _ _ refl (omega arith)
            (λ _. info-Obeys _ _ _ (pure-Obeys id (spares _ (omega arith) _)))
            (caught (λ err. create_failed-Obeys (m - 1) err err.code (omega arith))
              (λ message. spares _ (omega arith) _)))

  -- The same for outcomes that are no ConnectError.
  abbrev pub SparesOwn : ℕ → Post (Unit {0}) → Type 0
  SparesOwn n Q = (m : ℕ) → n ≤ m → (r : Outcome Failure (Unit {0})) → IsOwn r → Q true m r

  module _ (n : ℕ) (Q : Post (Unit {0})) (spares : SparesOwn n Q) where
    follow_up-Obeys : (t : Text) (k : ℕ) → n + 1 ≤ k → Obeys id true k (perform (follow_up t)) Q
    follow_up-Obeys t k left =
        perform-Obeys id (follow_up t) tt refl (omega arith) (spares (k - 1) (omega arith))

    track_added-Obeys :
        (k : ℕ) (track : Option Track) → n + 1 ≤ k → Obeys id true k (track_added env id track) Q
    unfolding track_added
    track_added-Obeys k none left = throw-Obeys id (spares _ (omega arith) _ tt)
    track_added-Obeys k (some track) left = info-Obeys _ _ _ (follow_up-Obeys _ k left)

    add_failed-Obeys :
        (url : Text) (k : ℕ) (err : ConnectError) (code : Code)
        → n + 1 ≤ k
        → Obeys id true k (add_failed env id url err code) Q
    unfolding add_failed
    add_failed-Obeys url k err invalid_argument left = info-Obeys _ _ _ (follow_up-Obeys _ k left)
    add_failed-Obeys url k err not_found left = info-Obeys _ _ _ (follow_up-Obeys _ k left)
    add_failed-Obeys url k err resource_exhausted left = info-Obeys _ _ _ (follow_up-Obeys _ k left)
    add_failed-Obeys url k err _ left = error-Obeys _ _ _ (follow_up-Obeys _ k left)

  module _ (n : ℕ) (Q : Post (Unit {0})) (spares : Spares true n Q) where
    -- What is no ConnectError passes through `withConnectError`.
    passed : (f : ConnectError → Thread (Unit {0})) → SparesOwn n (Caught id f Q)
    passed f m enough (ok _) possible = spares m enough _
    passed f m enough (thrown (connect_error code raw)) possible = absurd possible
    passed f m enough (thrown (other_error message)) possible = spares m enough _

    add_track-Obeys : (url : Text) (k : ℕ) → n + 2 ≤ k → Obeys id true k (add_track env id url) Q
    unfolding add_track
    add_track-Obeys url k left =
        with_connect_error-Obeys id (λ err. add_failed env id url err err.code)
          (call-Obeys Method.add_track _ _ refl (omega arith)
            (λ response.
              track_added-Obeys n _ (passed (λ err. add_failed env id url err err.code)) (k - 1)
                response.track (omega arith))
            (caught
              (λ err.
                add_failed-Obeys n Q (λ m enough r _. spares m enough r) url (k - 1) err err.code
                  (omega arith))
              (λ message. spares _ (omega arith) _)))

    pub reply_and_add-Obeys :
        (otherwise : Text) (url : Option Text) (m : ℕ)
        → n + 3 ≤ m
        → Obeys id false m (reply_and_add env id otherwise url) Q
    unfolding reply_and_add
    reply_and_add-Obeys otherwise none m left =
        perform-Obeys id (reply otherwise) tt refl (omega arith) (λ r _. spares _ (omega arith) r)
    reply_and_add-Obeys otherwise (some url) m left = bind-Obeys id (
        perform-Obeys id (reply _) tt refl (omega arith) (λ r _.
          any r (λ _. add_track-Obeys url (m - 1) (omega arith)) (λ e. spares _ (omega arith) _)))

  -- A playback that is started is fresh.
  abbrev pub IsFreshIf : Outcome Failure Playback → Type 0
  IsFreshIf (ok p) = IsFresh id p
  IsFreshIf (thrown _) = Unit

  module _ (n : ℕ) (Q : Post (Outcome Failure Playback))
      (spares : (m : ℕ)
        → n ≤ m
        → (r : Outcome Failure Playback) → IsFreshIf r
        → Q true m (ok r)) where
    or_destroy-Obeys :
        (connection m : ℕ) (ready : Outcome Failure (Unit {0})) {R : Post ℕ}
        → ((a : ℕ) → R true m (ok a))
        → ((e : Failure) → R true m (thrown e))
        → Obeys id true m (or_destroy env connection ready) R
    or_destroy-Obeys connection m (ok _) h k = pure-Obeys id (h _)
    or_destroy-Obeys connection m (thrown e) h k = bind-Obeys id (
        perform-Obeys id (destroy_connection connection) tt tt tt
          (λ r possible. own r possible (λ _. throw-Obeys id (k e)) (λ message. k _)))

    begun-Obeys :
        (stream_url : Text) (m connection : ℕ)
        → n ≤ m
        → Obeys id true m (perform (begin_stream id stream_url connection)) (λ b k r. Q b k (ok r))
    begun-Obeys stream_url m connection left =
        perform-Obeys id (begin_stream id stream_url connection) refl tt tt begun
      where
        begun : (r : Outcome Failure Playback) → IsStarted id r → Q true m (ok r)
        begun (ok p) fresh = spares m left (ok p) fresh
        begun (thrown e) possible = absurd possible

    start_playback-Obeys :
        (channel stream_url : Text) (m : ℕ)
        → n + 1 ≤ m
        → Obeys id true m (attempt (start_playback env channel id stream_url)) Q
    unfolding start_playback connect_to_channel
    start_playback-Obeys channel stream_url m left = attempt-Obeys id (
        bind-Obeys id (
          bind-Obeys id (
            perform-Obeys id (join_channel channel) tt tt tt (λ r possible.
              returned r possible (λ connection. bind-Obeys id (
                attempt-Obeys id (
                  perform-Obeys id (await_ready connection) tt tt (omega arith) (λ ready _.
                    or_destroy-Obeys connection (m - 1) ready
                      (λ joined. begun-Obeys stream_url (m - 1) joined (omega arith))
                      (λ e. spares (m - 1) (omega arith) (thrown e) tt)))))))))

    pub start_in-Obeys :
        (channel : Option Text) (stream_url : Text) (m : ℕ)
        → n + 1 ≤ m
        → Obeys id true m (attempt (start_in env channel id stream_url)) Q
    start_in-Obeys none stream_url m left =
        attempt-Obeys id (throw-Obeys id (spares m (omega arith) _ tt))
    start_in-Obeys (some channel) stream_url m left = start_playback-Obeys channel stream_url m left
