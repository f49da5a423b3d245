-- ===== src/Bot/Threads/System/Sound.antt =====
-- discord-jockey/src: what holds of the handlers that wait and of the playbacks, however it has come to
-- be so.
use radio_jockey.Base.{
  ℕ, ◌-◌, ◌≤◌, suc, Bool, true, false, Option, none, some, List, [], ◌∷◌, ◌++◌, Text, ◌≡◌, arith,
  All, All-append,
}
use mathlib.Core.Path.{subst}
use radio_jockey.Bot.Commands.{get_session_id}
use radio_jockey.Bot.Effects.{Env, World}
use radio_jockey.Bot.Playback.{Playback}
use radio_jockey.Bot.Streams.{HasOneStream, on_event-HasOneStream}
use radio_jockey.Bot.Threads.{Thread, pure, throw, doing, is_awaited, advance, resume}
use radio_jockey.Bot.Threads.Contract.{Follows, replied_after}
use radio_jockey.Bot.Threads.Contract.Dispatch.{Handled, on_interaction-Obeys}
use radio_jockey.Bot.Threads.Play.{on_interaction}
use radio_jockey.Bot.Threads.System.{
  Running, Bot, place, played, replied_by, alone, interacted, resumed, Step, interact, settle,
  happen, move, Reach, here, step, starting,
}
use radio_jockey.Bot.Threads.System.Segments.{IsParked, advance-Follows, resume-Follows}

pub All-split {ℓ κ} :
    {A : Type ℓ} (P : A → Type κ) (us : List A) (x : A) (vs : List A)
    → All P (us ++ x ∷ vs)
    → All P us × P x × All P vs
All-split P [] x vs (h, k) = (tt, h, k)
All-split P (u ∷ us) x vs (h, k) =
    let (before, at, after) = All-split P us x vs k in ((h, before), at, after)

abbrev pub Waits : {A : Type 0} → Thread A → Type 0
Waits (doing o k) = is_awaited o ≡ true
Waits _ = ⊥

-- A handler that waits keeps the contract from there on, with seven waits in all.
pub record IsWaiting (t : Running) : Type 0 where
  pub waits : Waits t.thread
  pub follows : Follows t.session_id t.replied (7 - t.settled) t.thread (Handled t.session_id)

pub record IsSound {S : Type 0} (b : Bot S) : Type 0 where
  pub running : All IsWaiting b.running
  pub playbacks : All HasOneStream b.playbacks

module _ {S : Type 0} where
  place-IsSound :
      (id : Text) (replied : Bool) (settled : ℕ) (r : Thread (Option Playback) × World S)
      (before after : List Running) (playbacks : List Playback)
      → Follows id replied (7 - settled) r.0 (Handled id) × IsParked r.0
      → All IsWaiting before
      → All IsWaiting after
      → All HasOneStream playbacks
      → IsSound (place id replied settled r before after playbacks)
  unfolding place Follows
  place-IsSound id replied settled (pure none, w) before after playbacks h us vs ps = record {
    running = All-append IsWaiting before after us vs;
    playbacks = ps;
  }
  place-IsSound id replied settled (pure (some p), w) before after playbacks (fresh, _) us vs ps =
      record { running = All-append IsWaiting before after us vs; playbacks = (fresh.streams, ps) }
  place-IsSound id replied settled (throw e, w) before after playbacks (never, _) us vs ps =
      absurd never
  place-IsSound id replied settled (doing o k, w) before after playbacks (h, parked) us vs ps =
      record {
        running = All-append IsWaiting before _ us (record { waits = parked; follows = h }, vs);
        playbacks = ps;
      }

  module _ (env : Env S) where
    pub resume_lem :
        (p : Thread (Option Playback)) (id : Text) (replied : Bool) (settled : ℕ) (w : World S)
        → Waits p
        → Follows id replied (7 - settled) p (Handled id)
        → (settled ≤ 6)
          × Follows id (replied_by p replied) (7 - suc settled) (resume env p w).0 (Handled id)
          × IsParked (resume env p w).0
    resume_lem (doing o k) id replied settled w awaited h =
        let (left, goes_on, parked) =
          resume-Follows env id (Handled id) o k replied (7 - settled) w h awaited in
        (
          omega arith,
          subst
              (λ n.
                Follows id (replied_after replied o) n (resume env (doing o k) w).0 (Handled id))
              (omega arith) goes_on,
          parked,
        )
    resume_lem (pure a) id replied settled w waits h = absurd waits
    resume_lem (throw e) id replied settled w waits h = absurd waits

  module _ (env : Env S) where
    step-IsSound : {b c : Bot S} → IsSound b → Step env b c → IsSound c
    unfolding interacted resumed played
    step-IsSound {b = b} h (interact is_chat_input name i) =
        place-IsSound (get_session_id env i) false 0
          (advance (alone env) (on_interaction env is_chat_input name i) b.world) [] b.running
          b.playbacks
          (advance-Follows (alone env) _ _ (on_interaction env is_chat_input name i) false 7 b.world
            (on_interaction-Obeys env i name 7 (omega arith) is_chat_input).follows)
          tt h.running h.playbacks
    step-IsSound {b = b} h (settle before after t at) =
        let (us, w, vs) = All-split IsWaiting before t after (subst (All IsWaiting) at h.running) in
        let (_, goes_on, parked) =
          resume_lem (alone env) t.thread t.session_id t.replied t.settled b.world w.waits
            w.follows in
        place-IsSound t.session_id (replied_by t.thread t.replied) (suc t.settled)
          (resume (alone env) t.thread b.world) before after b.playbacks (goes_on, parked) us vs
          h.playbacks
    step-IsSound {b = b} h (happen before after p e at on) =
        let (us, x, vs) =
          All-split HasOneStream before p after (subst (All HasOneStream) at h.playbacks) in
        record {
          running = h.running;
          playbacks =
              All-append HasOneStream before _ us
                (on_event-HasOneStream (alone env) e p b.world x, vs);
        }
    step-IsSound h (move s) = record { running = h.running; playbacks = h.playbacks }

    pub Reach-IsSound : {b c : Bot S} → IsSound b → Reach env b c → IsSound c
    Reach-IsSound h here = h
    Reach-IsSound h (step r s) = step-IsSound (Reach-IsSound h r) s

    pub starting-IsSound : (w : World S) → IsSound (starting w)
    starting-IsSound w = record { running = tt; playbacks = tt }
