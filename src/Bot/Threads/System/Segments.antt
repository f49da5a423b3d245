-- ===== src/Bot/Threads/System/Segments.antt =====
-- discord-jockey/src: what a handler that keeps the contract does up to its next wait.
use radio_jockey.Base.{
  ℕ, ◌-◌, ◌≤◌, Bool, true, false, Option, none, some, Text, ◌≡◌, refl, Outcome, ok, thrown, arith,
  Bool-cases, inl, inr, lookup,
}
use mathlib.Core.Path.{subst, subst₂}
use radio_jockey.Proto.Service.{Failure}
use radio_jockey.Bot.Effects.{
  Env, World, call, call_authorized, send, info, error, destroy_session, destroy_connection,
  destroy_found, after, delivered, update_sessions,
}
use radio_jockey.Bot.Playback.{
  await_ready, join_channel, begin_stream, open_playback, start_stream, Playback,
}
use radio_jockey.Bot.Sessions.{Session, Sessions}
use radio_jockey.Bot.Streams.{HasOneStream, start_stream-HasOneStream}
use radio_jockey.Bot.Threads.{
  Op, Answer, Thread, pure, throw, doing, is_awaited, exec, advance, resume,
}
use radio_jockey.Bot.Threads.Contract.{
  Post, Follows, HasLeft, Possible, IsOwn, IsFresh, replied_after, left_after,
}

-- An operation that is not awaited is no reply.
sync_lem :
    (o : Op) (b : Bool) (n : ℕ)
    → is_awaited o ≡ false
    → (replied_after b o ≡ b) × (left_after (is_awaited o) n ≡ n)
sync_lem (Op.call _ _) b n e = absurd (ground arith)
sync_lem (Op.call_authorized _ _ _) b n e = absurd (ground arith)
sync_lem (Op.reply _) b n e = absurd (ground arith)
sync_lem (Op.follow_up _) b n e = absurd (ground arith)
sync_lem (Op.await_ready _) b n e = absurd (ground arith)
sync_lem (Op.info _ _) b n e = (refl, refl)
sync_lem (Op.error _ _) b n e = (refl, refl)
sync_lem (Op.sign_nonce _) b n e = (refl, refl)
sync_lem (Op.get_auth_token _) b n e = (refl, refl)
sync_lem (Op.set_auth_token _ _) b n e = (refl, refl)
sync_lem (Op.has_session _) b n e = (refl, refl)
sync_lem (Op.destroy_session _) b n e = (refl, refl)
sync_lem (Op.join_channel _) b n e = (refl, refl)
sync_lem (Op.destroy_connection _) b n e = (refl, refl)
sync_lem (Op.begin_stream _ _ _) b n e = (refl, refl)

delivered-IsOwn : (o : Option Text) → IsOwn (delivered o)
delivered-IsOwn none = tt
delivered-IsOwn (some message) = tt

module _ {S : Type 0} (env : Env S) where
  after_update-IsOwn :
      (r : Outcome Failure (Unit {0}) × World S) (f : Sessions → Sessions)
      → IsOwn r.0
      → IsOwn (after r (λ _. update_sessions f)).0
  after_update-IsOwn (ok u, w) f h = tt
  after_update-IsOwn (thrown e, w) f h = h

  destroy_found-IsOwn : (found : Option Session) (w : World S) → IsOwn (destroy_found env found w).0
  unfolding destroy_connection
  destroy_found-IsOwn none w = tt
  destroy_found-IsOwn (some session) w =
      delivered-IsOwn (env.destroy session.connection w.external).0

  start_stream-IsFresh :
      {id : Text} (p : Playback) (w : World S)
      → p.session_id ≡ id
      → p.stopped ≡ false
      → HasOneStream p
      → IsFresh id (start_stream env p w).0
  unfolding start_stream
  start_stream-IsFresh p w named running streams = record {
    named = named;
    running = running;
    streams = start_stream-HasOneStream env p w streams;
  }

  -- What is executed comes to something possible.
  pub exec-Possible : (o : Op) (w : World S) → Possible o (exec env o w).0
  unfolding exec call call_authorized send info error destroy_session destroy_connection await_ready
      join_channel begin_stream open_playback
  exec-Possible (Op.call _ _) w = tt
  exec-Possible (Op.call_authorized _ _ _) w = tt
  exec-Possible (Op.reply content) w = delivered-IsOwn (env.deliver content w.external).0
  exec-Possible (Op.follow_up content) w = delivered-IsOwn (env.deliver content w.external).0
  exec-Possible (Op.await_ready connection) w =
      delivered-IsOwn (env.enters_ready connection w.external).0
  exec-Possible (Op.info _ _) w = tt
  exec-Possible (Op.error _ _) w = tt
  exec-Possible (Op.sign_nonce _) w = tt
  exec-Possible (Op.get_auth_token _) w = tt
  exec-Possible (Op.set_auth_token _ _) w = tt
  exec-Possible (Op.has_session _) w = tt
  exec-Possible (Op.destroy_session id) w =
      after_update-IsOwn (destroy_found env (lookup id w.sessions) w) _
        (destroy_found-IsOwn (lookup id w.sessions) w)
  exec-Possible (Op.join_channel _) w = tt
  exec-Possible (Op.destroy_connection connection) w =
      delivered-IsOwn (env.destroy connection w.external).0
  exec-Possible (Op.begin_stream id stream_url connection) w =
      start_stream-IsFresh _ _ refl refl (inl refl)

abbrev pub IsParked : {A : Type 0} → Thread A → Type 0
IsParked (pure a) = Unit
IsParked (throw e) = Unit
IsParked (doing o k) = is_awaited o ≡ true

module _ {S : Type 0} (env : Env S) (id : Text) {A : Type 0} (Q : Post A) where
  -- Up to the next wait the contract stays as it is.
  pub advance-Follows :
      (p : Thread A) (b : Bool) (n : ℕ) (w : World S)
      → Follows id b n p Q
      → Follows id b n (advance env p w).0 Q × IsParked (advance env p w).0
  unfolding Follows advance
  advance-Follows (pure a) b n w h = (h, tt)
  advance-Follows (throw e) b n w h = (h, tt)
  advance-Follows (doing o k) b n w (on, timely, left, h) = elim (Bool-cases (is_awaited o)) [
    | inl awaited ↦ rw awaited ((on, timely, left, h), awaited)
    | inr at_once ↦
        let (same_reply, same_left) = sync_lem o b n at_once in
        rw at_once (
          advance-Follows (k (exec env o w).0) b n (exec env o w).1 (
            subst₂ (λ b' n'. Follows id b' n' (k (exec env o w).0) Q) same_reply same_left
              (h (exec env o w).0 (exec-Possible env o w))))
  ]

  -- A wait that settles.
  pub resume-Follows :
      (o : Op) (k : Outcome Failure (Answer o) → Thread A) (b : Bool) (n : ℕ) (w : World S)
      → Follows id b n (doing o k) Q
      → is_awaited o ≡ true
      → (1 ≤ n)
        × Follows id (replied_after b o) (n - 1) (resume env (doing o k) w).0 Q
        × IsParked (resume env (doing o k) w).0
  unfolding Follows resume
  resume-Follows o k b n w (on, timely, left, h) awaited =
      let r = (exec env o w).0 in
      let goes_on = advance-Follows (k r) (replied_after b o) (n - 1) (exec env o w).1 (
        subst (λ a. Follows id (replied_after b o) (left_after a n) (k r) Q) awaited
          (h r (exec-Possible env o w))) in
      (subst (λ a. HasLeft a n) awaited left, goes_on.0, goes_on.1)
