-- ===== src/Bot/Starts.antt =====
-- discord-jockey/src/discord/command/play.ts, `startPlayback`: what it leaves when it returns.
use radio_jockey.Base.{
  ℕ, true, false, none, some, [], ◌∷◌, Text, Outcome, ok, thrown, ◌≡◌, inr, refl, sym, ap, ◌∙◌,
  arith, lookup, lookup-insert_self,
}
use mathlib.Core.Path.{subst₂}
use radio_jockey.Proto.Service.{Failure}
use radio_jockey.Bot.Sessions.{create_session, set_buffer}
use radio_jockey.Bot.Effects.{Env, World, after, info}
use radio_jockey.Bot.Playback.{
  Playback, start_stream, start_playback, begin_stream, connect_to_channel,
}
use radio_jockey.Bot.Streams.{HasOneStream, Reach, Reach-HasOneStream}

ok-injective : {A : Type 0} {a b : A} → ◌≡◌ {A = Outcome Failure A} (ok a) (ok b) → a ≡ b
ok-injective e = cc

module _ {S : Type 0} (env : Env S) where
  module _ (session_id stream_url : Text) where
    fresh : ℕ → Playback
    fresh connection = record {
      session_id = session_id;
      stream_url = stream_url;
      connection = connection;
      stopped = false;
      current_request = none;
      attached = true;
      live = [];
      playing = none;
    }

    registered :
        (connection : ℕ) (w : World S)
        → (lookup session_id
              (start_stream env (fresh connection) (record w {
                sessions = create_session session_id connection w.sessions;
              })).1.sessions
            ≡ some (record {
              connection = connection;
              buffer =
                  (start_stream env (fresh connection) (record w {
                    sessions = create_session session_id connection w.sessions;
                  })).0.current_request;
              auth_token = none;
            }))
    unfolding fresh start_stream create_session set_buffer
    registered connection w = rw (lookup-insert_self, set_buffer) (lookup-insert_self _ _ _)

    -- What `startPlayback` has done when it returns: the stream is open, and the table holds the
    -- connection, the buffer that the stream fills, and no token yet.
    pub record HasStarted (p : Playback) (w : World S) : Type 0 where
      pub named : p.session_id ≡ session_id
      pub request : ℕ
      pub current : p.current_request ≡ some request
      pub one_open : p.live ≡ request ∷ []
      pub running : p.stopped ≡ false
      pub streams : p.stream_url ≡ stream_url
      pub in_table :
          lookup session_id w.sessions
          ≡ some (record { connection = p.connection; buffer = some request; auth_token = none })

    begin_stream-HasStarted :
        (connection : ℕ) (w : World S)
        → (p : Playback) × (w' : World S) × (begin_stream env session_id stream_url connection w
            ≡ (ok p, w'))
          × HasStarted p w'
    unfolding begin_stream info fresh start_stream
    begin_stream-HasStarted connection w = (
      _,
      _,
      refl,
      record {
        named = refl;
        request = _;
        current = refl;
        one_open = refl;
        running = refl;
        streams = refl;
        in_table = registered connection w;
      },
    )

    stream_begun :
        (r : Outcome Failure ℕ × World S) (p : Playback) (w' : World S)
        → after r (begin_stream env session_id stream_url) ≡ (ok p, w')
        → HasStarted p w'
    stream_begun (thrown x, w) p w' e = absurd (ground arith)
    stream_begun (ok connection, w) p w' e =
        let (q, v, begun, h) = begin_stream-HasStarted connection w in
        let same : (ok q, v) ≡ (ok p, w') = sym begun ∙ e in
        subst₂ HasStarted (ok-injective (ap (λ r. r.0) same)) (ap (λ r. r.1) same) h

    -- When `startPlayback` returns, its stream is the one open request, it has not stopped, and
    -- the table holds its connection and its buffer, without a token, under the id of the session.
    pub start_playback-HasStarted :
        (channel : Text) (w w' : World S) (p : Playback)
        → start_playback env channel session_id stream_url w ≡ (ok p, w')
        → HasStarted p w'
    unfolding start_playback
    start_playback-HasStarted channel w w' p e =
        stream_begun (connect_to_channel env channel w) p w' e

    -- Once `startPlayback` has returned, however the events of its playback follow one another and
    -- whatever other handlers do in between, at most one request is open, and it is the current
    -- one.
    pub run-HasOneStream :
        (channel : Text) (w w' : World S) {p q : Playback}
        → start_playback env channel session_id stream_url w ≡ (ok p, w')
        → Reach env p q
        → HasOneStream q
    run-HasOneStream channel w w' {p} e r =
        let h = start_playback-HasStarted channel w w' p e in
        Reach-HasOneStream env r (inr (h.request, h.current, h.one_open))
