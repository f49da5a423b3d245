-- ===== src/Bot/Streams.antt =====
-- discord-jockey/src/discord/command/play.ts, `startPlayback`: runs of its events.
use radio_jockey.Base.{
  ℕ, true, false, Option, none, some, List, [], ◌∷◌, Text, Outcome, ok, thrown, ◌≡◌, ◌⊎◌, inl, inr,
  refl, sym, ap, ◌∙◌, arith, if-intro,
}
use mathlib.Core.Path.{subst}
use radio_jockey.Proto.Service.{Failure}
use radio_jockey.Bot.Effects.{Env, World, destroy_session}
use radio_jockey.Bot.Playback.{
  Playback, Event, player_error, player_idle, stream_end, stream_error, readable, enabled,
  without_current, Played, start_stream, torn_down, stop, and_say, leave, on_event, close_current,
}

-- No request is open, or the current one alone is.
abbrev pub HasOneStream : Playback → Type 0
HasOneStream p =
    (p.live ≡ []) ⊎ ((request : ℕ) × (p.current_request ≡ some request) × (p.live ≡ request ∷ []))

without_current_lem :
    (current : Option ℕ) (live : List ℕ)
    → (live ≡ []) ⊎ ((request : ℕ) × (current ≡ some request) × (live ≡ request ∷ []))
    → without_current current live ≡ []
without_current_lem none live (inl closed) = closed
without_current_lem none live (inr (request, current, one)) = absurd (ground arith)
without_current_lem (some r) live (inl closed) = rw closed
without_current_lem (some r) live (inr (request, current, one)) = rw one (ground arith)

module _ {S : Type 0} (env : Env S) where
  pub start_stream-HasOneStream :
      (p : Playback) (w : World S) → HasOneStream p → HasOneStream (start_stream env p w).0
  unfolding start_stream
  start_stream-HasOneStream p w h =
      let request =
        (env.open_stream p.stream_url (close_current env p.current_request w.external)).0 in
      inr (request, refl, ap (λ l. request ∷ l) (without_current_lem p.current_request p.live h))

  torn_down-HasOneStream :
      (p : Playback) (r : Outcome Failure (Unit {0}) × World S)
      → HasOneStream p
      → HasOneStream (torn_down env p r).1
  torn_down-HasOneStream p (ok a, w) h = inl (without_current_lem p.current_request p.live h)
  torn_down-HasOneStream p (thrown e, w) h = h

  stop-HasOneStream : (p : Playback) (w : World S) → HasOneStream p → HasOneStream (stop env p w).1
  unfolding stop
  stop-HasOneStream p w h =
      if-intro (λ (r : Played S). HasOneStream r.1) p.stopped (λ _. h)
        (λ _. torn_down-HasOneStream p (destroy_session env p.session_id w) h)

  and_say_lem : (message : Text) (r : Played S) → (and_say env message r).1 ≡ r.1
  and_say_lem message (ok a, p, w) = refl
  and_say_lem message (thrown e, p, w) = refl

  leave_lem :
      (message : Text) (p : Playback) (w : World S) → (leave env message p w).1 ≡ (stop env p w).1
  unfolding leave
  leave_lem message p w = and_say_lem message (stop env p w)

  pub on_event-HasOneStream :
      (e : Event) (p : Playback) (w : World S)
      → HasOneStream p
      → HasOneStream (on_event env e p w).1
  unfolding on_event
  on_event-HasOneStream (player_error err) p w h =
      if-intro (λ (r : Played S). HasOneStream r.1) p.stopped (λ _. h)
        (λ _. start_stream-HasOneStream p _ h)
  on_event-HasOneStream player_idle p w h =
      if-intro (λ (r : Played S). HasOneStream r.1) p.stopped (λ _. h)
        (λ _. start_stream-HasOneStream p _ h)
  on_event-HasOneStream (stream_end request) p w h =
      subst HasOneStream (sym (leave_lem _ p _)) (stop-HasOneStream p _ h)
  on_event-HasOneStream (stream_error request err) p w h =
      subst HasOneStream (sym (leave_lem _ p _)) (stop-HasOneStream p _ h)
  on_event-HasOneStream (readable buffer) p w h = h

  -- An event happens in whatever world the other handlers have left.
  pub data Reach (p : Playback) : Playback → Type 0 where
    here : Reach p p
    event :
        {q : Playback} (e : Event) (w : World S)
        → Reach p q
        → enabled q e ≡ true
        → Reach p (on_event env e q w).1

  pub Reach-HasOneStream : {p q : Playback} → Reach p q → HasOneStream p → HasOneStream q
  Reach-HasOneStream here h = h
  Reach-HasOneStream (event {q} e w r on) h = on_event-HasOneStream e q w (Reach-HasOneStream r h)

  -- No event changes a playback that has stopped.
  pub on_event_stopped :
      (e : Event) (p : Playback) (w : World S) → p.stopped ≡ true → (on_event env e p w).1 ≡ p
  unfolding on_event stop
  on_event_stopped (player_error err) p w h =
      if-intro (λ (r : Played S). r.1 ≡ p) p.stopped (λ _. refl) (λ going. absurd (ground arith))
  on_event_stopped player_idle p w h =
      if-intro (λ (r : Played S). r.1 ≡ p) p.stopped (λ _. refl) (λ going. absurd (ground arith))
  on_event_stopped (stream_end request) p w h =
      leave_lem _ p _
      ∙ if-intro (λ (r : Played S). r.1 ≡ p) p.stopped (λ _. refl) (λ going. absurd (ground arith))
  on_event_stopped (stream_error request err) p w h =
      leave_lem _ p _
      ∙ if-intro (λ (r : Played S). r.1 ≡ p) p.stopped (λ _. refl) (λ going. absurd (ground arith))
  on_event_stopped (readable buffer) p w h =
      if-intro (λ buffers. record p { playing = buffers } ≡ p) p.stopped (λ _. refl)
        (λ going. absurd (ground arith))

  -- A stop of a playback that has not stopped and has at most its current request open, if it does
  -- not throw, marks the playback as stopped, removes the listeners of the player and leaves no
  -- request open.
  pub stop_clean :
      (p : Playback) (w : World S)
      → HasOneStream p
      → p.stopped ≡ false
      → (stop env p w).0 ≡ ok tt
      → ((stop env p w).1.stopped ≡ true)
        × ((stop env p w).1.attached ≡ false)
        × ((stop env p w).1.live ≡ [])
  unfolding stop
  stop_clean p w h going =
      if-intro
        (λ (r : Played S).
          r.0 ≡ ok tt → (r.1.stopped ≡ true) × (r.1.attached ≡ false) × (r.1.live ≡ []))
        p.stopped (λ done. absurd (ground arith)) (λ _. torn (destroy_session env p.session_id w))
    where
      torn :
          (r : Outcome Failure (Unit {0}) × World S)
          → (torn_down env p r).0 ≡ ok tt
          → ((torn_down env p r).1.stopped ≡ true)
            × ((torn_down env p r).1.attached ≡ false)
            × ((torn_down env p r).1.live ≡ [])
      torn (ok a, w') e = (refl, refl, without_current_lem p.current_request p.live h)
      torn (thrown x, w') e = cc
