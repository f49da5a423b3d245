-- ===== src/Bot/Threads/Contract/Dispatch.antt =====
-- discord-jockey/src/discord/command/play.ts, `handlePlayCommand`, and discord-jockey/src/discord.ts:
-- the listener of interactions keeps the contract.
use radio_jockey.Base.{
  ℕ, ◌≤◌, Bool, true, false, Option, none, some, Text, text, text_eq, ◌||◌, ◌≡◌, refl, Outcome, ok,
  thrown, arith, if-intro, if◌then◌else◌,
}
use radio_jockey.Proto.Service.{Failure}
use radio_jockey.Bot.Auth.{truthy}
use radio_jockey.Bot.Commands.{Interaction, get_session_id}
use radio_jockey.Bot.Effects.{Env}
use radio_jockey.Bot.Playback.{Playback}
use radio_jockey.Bot.Threads.{Thread, pure, perform, reply, follow_up, has_session}
use radio_jockey.Bot.Threads.Play.{
  playback_failed, started, with_stream, play_in, play_from, handle_play, no_playback, dispatch,
  logged, on_interaction,
}
use radio_jockey.Bot.Threads.Contract.{
  Obeys, Post, Bound, IsFresh, weaken-Obeys, pure-Obeys, bind-Obeys, perform-Obeys, attempt-Obeys,
}
use radio_jockey.Bot.Threads.Contract.Steps.{
  returned, any, info-Obeys, error-Obeys, destroy_session-Obeys, Ends,
}
use radio_jockey.Bot.Threads.Contract.Commands.{
  handle_ping-Obeys, handle_skip-Obeys, handle_queue-Obeys, handle_remove-Obeys, handle_stop-Obeys,
}
use radio_jockey.Bot.Threads.Contract.Playing.{
  get_or_create_session-Obeys, reply_and_add-Obeys, IsFreshIf, start_in-Obeys,
}

-- A playback that comes out is a fresh one of the session.
abbrev pub Gives : Text → Option Playback → Type 0
Gives id none = Unit
Gives id (some p) = IsFresh id p

-- What the handler of a command comes to: where it returns, the interaction has been replied to.
abbrev pub Done : Text → Post (Option Playback)
Done id replied left (ok o) = (replied ≡ true) × Gives id o
Done id replied left (thrown _) = Unit

module _ {S : Type 0} (env : Env S) (id : Text) where
  playback_failed-Obeys :
      (e : Failure) (n : ℕ) → 1 ≤ n → Obeys id true n (playback_failed env id e) (Done id)
  unfolding playback_failed
  playback_failed-Obeys e n left = error-Obeys _ _ _ (
      destroy_session-Obeys _
        (bind-Obeys id (
          attempt-Obeys id
            (perform-Obeys id (follow_up _) tt refl left (λ r _. pure-Obeys id (refl, tt)))))
        (λ _. tt))

  started-Obeys :
      (r : Outcome Failure Playback) (n : ℕ)
      → 1 ≤ n
      → IsFreshIf env id r
      → Obeys id true n (started env id r) (Done id)
  started-Obeys (ok p) n left fresh = pure-Obeys id (refl, fresh)
  started-Obeys (thrown e) n left fresh = playback_failed-Obeys e n left

  replied_none :
      (t : Text) (n : ℕ) → 1 ≤ n → Obeys id false n (no_playback env (perform (reply t))) (Done id)
  replied_none t n left = bind-Obeys id (
      perform-Obeys id (reply t) tt refl left
        (λ r _. any r (λ _. pure-Obeys id (refl, tt)) (λ _. tt)))

  with_stream-Obeys :
      (channel : Option Text) (url : Option Text) (r : Outcome Failure Text) (n : ℕ)
      → 5 ≤ n
      → Obeys id false n (with_stream env id channel url r) (Done id)
  with_stream-Obeys channel url (thrown e) n left =
      error-Obeys _ _ _ (replied_none _ n (omega arith))
  with_stream-Obeys channel url (ok stream_url) n left = bind-Obeys id (
      reply_and_add-Obeys env id 2 _
        (λ m enough r.
          any r
            (λ _. bind-Obeys id (
              start_in-Obeys env id 1 _
                (λ k some_left started_as fresh. started-Obeys started_as k some_left fresh) channel
                stream_url m (omega arith)))
            (λ _. tt))
        _ url n (omega arith))

  play_in-Obeys :
      (channel : Option Text) (url : Option Text) (playing : Bool) (n : ℕ)
      → 7 ≤ n
      → Obeys id false n (play_in env id channel url playing) (Done id)
  play_in-Obeys channel url true n left = bind-Obeys id (
      reply_and_add-Obeys env id 0 _ (λ m enough r. any r (λ _. pure-Obeys id (refl, tt)) (λ _. tt))
        _ url n (omega arith))
  play_in-Obeys channel url false n left = bind-Obeys id (
      attempt-Obeys id (
        get_or_create_session-Obeys env id {n = 5}
          (λ m enough r. with_stream-Obeys channel url r m enough) n left))

module _ {S : Type 0} (env : Env S) where
  play_from-Obeys :
      (i : Interaction) (channel : Option Text) (n : ℕ)
      → 7 ≤ n
      → Obeys (get_session_id env i) false n (play_from env i channel) (Done (get_session_id env i))
  play_from-Obeys i none n left = replied_none env _ _ n (omega arith)
  play_from-Obeys i (some channel) n left = info-Obeys _ _ _ (
      bind-Obeys _ (
        perform-Obeys _ (has_session _) refl tt tt (λ r possible.
          returned r possible
            (λ playing. play_in-Obeys env _ i.voice_channel_later (truthy i.url) playing n left))))

  handle_play-Obeys :
      (i : Interaction) (n : ℕ)
      → 7 ≤ n
      → Obeys (get_session_id env i) false n (handle_play env i) (Done (get_session_id env i))
  unfolding handle_play
  handle_play-Obeys i n left =
      if-intro (λ p. Obeys (get_session_id env i) false n p (Done (get_session_id env i)))
        i.in_guild (λ _. play_from-Obeys i i.voice_channel n left)
        (λ _. replied_none env _ _ n (omega arith))

  no_playback-Obeys :
      {id : Text} {n : ℕ} (p : Thread (Unit {0}))
      → Obeys id false n p Ends
      → Obeys id false n (no_playback env p) (Done id)
  no_playback-Obeys {id} {n} p h = bind-Obeys id (weaken-Obeys id h followed)
    where
      followed :
          (b : Bool) (k : ℕ) (r : Outcome Failure (Unit {0}))
          → Ends b k r
          → Bound id (λ _. pure none) (Done id) b k r
      followed b k (ok _) replied = pure-Obeys id (replied, tt)
      followed b k (thrown _) replied = tt

-- The names of the commands.
abbrev pub is_command : Text → Bool
is_command name =
    text_eq name (text "ping")
    || text_eq name (text "play")
    || text_eq name (text "skip")
    || text_eq name (text "queue")
    || text_eq name (text "remove")
    || text_eq name (text "stop")

none_known :
    (a b c d e f : Bool)
    → a ≡ false
    → b ≡ false
    → c ≡ false
    → d ≡ false
    → e ≡ false
    → f ≡ false
    → a || b || c || d || e || f ≡ true
    → false ≡ true
none_known a b c d e f h1 h2 h3 h4 h5 h6 k = ground arith

-- The same for whatever name; an unknown one is not replied to.
abbrev pub Dispatched : Text → Text → Post (Option Playback)
Dispatched name id replied left (ok o) = (is_command name ≡ true → replied ≡ true) × Gives id o
Dispatched name id replied left (thrown _) = Unit

abbrev pub Handled : Text → Post (Option Playback)
Handled id replied left (ok o) = Gives id o
Handled id replied left (thrown _) = ⊥

module _ {S : Type 0} (env : Env S) (i : Interaction) (name : Text) (n : ℕ) (left : 7 ≤ n) where
  abbrev id : Text
  id = get_session_id env i

  known :
      {p : Thread (Option Playback)}
      → Obeys id false n p (Done id)
      → Obeys id false n p (Dispatched name id)
  known h = weaken-Obeys id h done
    where
      done :
          (b : Bool) (k : ℕ) (r : Outcome Failure (Option Playback))
          → Done id b k r
          → Dispatched name id b k r
      done b k (ok o) (replied, gives) = ((λ _. replied), gives)
      done b k (thrown _) h = tt

  branch :
      (b : Bool) {p q : Thread (Option Playback)}
      → Obeys id false n p (Done id)
      → (b ≡ false → Obeys id false n q (Dispatched name id))
      → Obeys id false n (if b then p else q) (Dispatched name id)
  branch b h k = if-intro (λ p. Obeys id false n p (Dispatched name id)) b (λ _. known h) k

  pub dispatch-Obeys : Obeys id false n (dispatch env name i) (Dispatched name id)
  unfolding dispatch
  dispatch-Obeys =
      branch (text_eq name (text "ping"))
        (no_playback-Obeys env _ (handle_ping-Obeys env (omega arith)))
        (λ e1. branch (text_eq name (text "play")) (handle_play-Obeys env i n left) (λ e2.
          branch (text_eq name (text "skip"))
            (no_playback-Obeys env _ (handle_skip-Obeys env i (omega arith)))
            (λ e3.
              branch (text_eq name (text "queue"))
                (no_playback-Obeys env _ (handle_queue-Obeys env i (omega arith)))
                (λ e4.
                  branch (text_eq name (text "remove"))
                    (no_playback-Obeys env _ (handle_remove-Obeys env i (omega arith)))
                    (λ e5.
                      branch (text_eq name (text "stop"))
                        (no_playback-Obeys env _ (handle_stop-Obeys env i (omega arith)))
                        (λ e6. pure-Obeys id (none_known _ _ _ _ _ _ e1 e2 e3 e4 e5 e6, tt)))))))

  -- The listener: it throws nothing.
  pub on_interaction-Obeys :
      (is_chat_input : Bool)
      → Obeys id false n (on_interaction env is_chat_input name i) (Handled id)
  unfolding on_interaction
  on_interaction-Obeys false = pure-Obeys id tt
  on_interaction-Obeys true =
      info-Obeys _ _ _
        (bind-Obeys id (attempt-Obeys id (weaken-Obeys id dispatch-Obeys caught_all)))
    where
      caught_all :
          (b : Bool) (k : ℕ) (r : Outcome Failure (Option Playback))
          → Dispatched name id b k r
          → Obeys id b k (logged env name r) (Handled id)
      caught_all b k (ok o) (_, gives) = pure-Obeys id gives
      caught_all b k (thrown e) h = error-Obeys _ _ _ (pure-Obeys id tt)
