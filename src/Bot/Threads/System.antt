-- ===== src/Bot/Threads/System.antt =====
-- discord-jockey/src: the bot as a whole. Interactions, answers to calls and events of playbacks come
-- in any order, and what each sets off runs up to the next wait before anything else does.
pub mod Segments
pub mod Sound
pub mod Guilds
pub mod Starting
pub mod Finishing
pub mod Twice
pub mod Orphan
pub mod Waits
use radio_jockey.Base.{
  ℕ, ◌+◌, ◌*◌, zero, suc, Bool, true, false, Option, none, some, List, [], ◌∷◌, ◌++◌, Text, ◌≡◌,
  Outcome,
}
use radio_jockey.Proto.Service.{Failure}
use radio_jockey.Bot.Commands.{Interaction, get_session_id}
use radio_jockey.Bot.Effects.{Env, World}
use radio_jockey.Bot.Playback.{Playback, Event, Played, enabled, on_event}
use radio_jockey.Bot.Threads.{Thread, pure, throw, doing, advance, resume}
use radio_jockey.Bot.Threads.Contract.{replied_after}
use radio_jockey.Bot.Threads.Play.{on_interaction}

-- A handler that waits, with the session id of its interaction; whether it has replied, and how many
-- of its waits have settled.
pub record Running : Type 0 where
  pub session_id : Text
  pub replied : Bool
  pub settled : ℕ
  pub thread : Thread (Option Playback)

pub record Bot (S : Type 0) : Type 0 where
  pub world : World S
  pub running : List Running
  pub playbacks : List Playback

abbrev pub replied_by : {A : Type 0} → Thread A → Bool → Bool
replied_by (doing o k) replied = replied_after replied o
replied_by _ replied = replied

module _ {S : Type 0} where
  -- A handler at its next wait goes on running; at its end it leaves the playback that it has started.
  unfoldable pub place :
      Text
      → (replied : Bool) (settled : ℕ) → Thread (Option Playback) × World S
      → (before after : List Running) → List Playback
      → Bot S
  place id replied settled (pure none, w) before after playbacks = record {
    world = w;
    running = before ++ after;
    playbacks = playbacks;
  }
  place id replied settled (pure (some p), w) before after playbacks = record {
    world = w;
    running = before ++ after;
    playbacks = p ∷ playbacks;
  }
  place id replied settled (throw e, w) before after playbacks = record {
    world = w;
    running = before ++ after;
    playbacks = playbacks;
  }
  place id replied settled (doing o k, w) before after playbacks = record {
    world = w;
    running =
        before
        ++ (record { session_id = id; replied = replied; settled = settled; thread = doing o k })
          ∷ after;
    playbacks = playbacks;
  }

  -- A listener that throws leaves what it has done.
  unfoldable pub played : Played S → (before after : List Playback) → List Running → Bot S
  played (r, p, w) before after running = record {
    world = w;
    running = running;
    playbacks = before ++ p ∷ after;
  }

  module _ (env : Env S) where
    -- Others run only where it is said: an operation itself lets nothing in between.
    abbrev pub alone : Env S
    alone = record env { meanwhile = λ s m. m }

    unfoldable pub interacted : Bool → Text → Interaction → Bot S → Bot S
    interacted is_chat_input name i b =
        place (get_session_id env i) false 0
          (advance alone (on_interaction env is_chat_input name i) b.world) [] b.running b.playbacks

    unfoldable pub resumed : (before after : List Running) → Running → Bot S → Bot S
    resumed before after t b =
        place t.session_id (replied_by t.thread t.replied) (suc t.settled)
          (resume alone t.thread b.world) before after b.playbacks

    pub data Step (b : Bot S) : Bot S → Type 0 where
      interact :
          (is_chat_input : Bool) (name : Text) (i : Interaction)
          → Step b (interacted is_chat_input name i b)
      settle :
          (before after : List Running) (t : Running)
          → b.running ≡ before ++ t ∷ after
          → Step b (resumed before after t b)
      happen :
          (before after : List Playback) (p : Playback) (e : Event)
          → b.playbacks ≡ before ++ p ∷ after
          → enabled p e ≡ true
          → Step b (played (on_event alone e p b.world) before after b.running)
      -- What goes on outside.
      move : (s : S) → Step b (record b { world = record b.world { external = s } })

    -- Whose step it is.
    abbrev pub owner : {b c : Bot S} → Step b c → Option Text
    owner (interact is_chat_input name i) = some (get_session_id env i)
    owner (settle before after t e) = some t.session_id
    owner (happen before after p e at on) = some p.session_id
    owner (move s) = none

    pub data Reach (b : Bot S) : Bot S → Type 0 where
      here : Reach b b
      step : {c d : Bot S} → Reach b c → Step c d → Reach b d

    -- How many interactions a run has, and how many waits settle in it.
    abbrev pub begun : {b c : Bot S} → Step b c → ℕ
    begun (interact is_chat_input name i) = 1
    begun (settle before after t e) = 0
    begun (happen before after p e at on) = 0
    begun (move s) = 0

    abbrev pub waited : {b c : Bot S} → Step b c → ℕ
    waited (interact is_chat_input name i) = 0
    waited (settle before after t e) = 1
    waited (happen before after p e at on) = 0
    waited (move s) = 0

    abbrev pub interactions : {b c : Bot S} → Reach b c → ℕ
    interactions here = 0
    interactions (step r s) = interactions r + begun s

    abbrev pub settles : {b c : Bot S} → Reach b c → ℕ
    settles here = 0
    settles (step r s) = settles r + waited s

  -- A bot at which nothing runs, with no session.
  abbrev pub starting : World S → Bot S
  starting w = record { world = record w { sessions = [] }; running = []; playbacks = [] }
