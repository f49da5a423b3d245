-- ===== src/Bot/Threads/System/Waits.antt =====
-- discord-jockey/src: what the handlers wait for, and how often.
use radio_jockey.Base.{
  ℕ, ◌+◌, ◌*◌, ◌-◌, ◌≤◌, suc, ap, Bool, false, Option, none, some, List, [], ◌∷◌, ◌++◌, Text, ◌≡◌,
  arith, All,
}
use mathlib.Core.Path.{subst}
use radio_jockey.Bot.Effects.{Env, World}
use radio_jockey.Bot.Commands.{get_session_id}
use radio_jockey.Bot.Playback.{Playback}
use radio_jockey.Bot.Streams.{HasOneStream}
use radio_jockey.Bot.Threads.{Thread, pure, throw, doing, advance, resume}
use radio_jockey.Bot.Threads.Contract.{Follows, IsOn, IsTimely}
use radio_jockey.Bot.Threads.Contract.Dispatch.{Handled}
use radio_jockey.Bot.Threads.Play.{on_interaction}
use radio_jockey.Bot.Threads.System.{
  Running, Bot, place, played, replied_by, alone, interacted, resumed, Step, interact, settle,
  happen, move, Reach, here, step, starting, interactions, settles, begun, waited,
}
use radio_jockey.Bot.Threads.System.Sound.{
  All-split, Waits, IsWaiting, IsSound, resume_lem, Reach-IsSound, starting-IsSound,
}

-- What a handler waits for is on its session, and timely.
abbrev pub Asks : {A : Type 0} → Text → Bool → Thread A → Type 0
Asks id replied (doing o k) = IsOn id o × IsTimely replied o
Asks id replied _ = ⊥

abbrev pub IsProper : Running → Type 0
IsProper t = Asks t.session_id t.replied t.thread

asks_lem :
    (p : Thread (Option Playback)) (id : Text) (replied : Bool) (n : ℕ)
    → Waits p
    → Follows id replied n p (Handled id)
    → Asks id replied p
unfolding Follows
asks_lem (doing o k) id replied n waits (on, timely, _, _) = (on, timely)
asks_lem (pure a) id replied n waits h = absurd waits
asks_lem (throw e) id replied n waits h = absurd waits

All-IsProper : (ts : List Running) → All IsWaiting ts → All IsProper ts
All-IsProper [] h = tt
All-IsProper (t ∷ ts) (w, h) =
    (asks_lem t.thread t.session_id t.replied _ w.waits w.follows, All-IsProper ts h)

-- The waits that the handlers have left at most.
spare : List Running → ℕ
spare [] = 0
spare (t ∷ ts) = 7 - t.settled + spare ts

spare-append : (us vs : List Running) → spare (us ++ vs) ≡ spare us + spare vs
unfolding spare
spare-append [] vs = omega arith
spare-append (u ∷ us) vs = omega (arith, spare-append us vs)

module _ {S : Type 0} where
  spare-place :
      (id : Text) (replied : Bool) (settled : ℕ) (r : Thread (Option Playback) × World S)
      (before after : List Running) (playbacks : List Playback)
      → spare (place id replied settled r before after playbacks).running
        ≤ spare before + (7 - settled) + spare after
  unfolding place spare
  spare-place id replied settled (pure none, w) before after playbacks =
      omega (arith, spare-append before after)
  spare-place id replied settled (pure (some p), w) before after playbacks =
      omega (arith, spare-append before after)
  spare-place id replied settled (throw e, w) before after playbacks =
      omega (arith, spare-append before after)
  spare-place id replied settled (doing o k, w) before after playbacks = omega (
    arith,
    spare-append before (
        (record { session_id = id; replied = replied; settled = settled; thread = doing o k })
        ∷ after),
  )

  module _ (env : Env S) where
    -- A wait that settles is one less, and an interaction brings seven.
    spare-step :
        {b c : Bot S} (s : Step env b c)
        → IsSound b
        → spare c.running + waited env s ≤ spare b.running + 7 * begun env s
    unfolding interacted resumed played spare
    spare-step {b = b} (interact is_chat_input name i) h = omega (
      arith,
      spare-place (get_session_id env i) false 0
          (advance (alone env) (on_interaction env is_chat_input name i) b.world) [] b.running
          b.playbacks,
    )
    spare-step {b = b} (settle before after t at) h =
        let (_, w, _) = All-split IsWaiting before t after (subst (All IsWaiting) at h.running) in
        omega (
          arith,
          (resume_lem (alone env) t.thread t.session_id t.replied t.settled b.world w.waits
              w.follows).0,
          ap spare at,
          spare-append before (t ∷ after),
          spare-place t.session_id (replied_by t.thread t.replied) (suc t.settled)
              (resume (alone env) t.thread b.world) before after b.playbacks,
        )
    spare-step (happen before after p e at on) h = omega arith
    spare-step (move s) h = omega arith

    settles-spare :
        {b c : Bot S} (r : Reach env b c)
        → IsSound b
        → spare c.running + settles env r ≤ spare b.running + 7 * interactions env r
    settles-spare here h = omega arith
    settles-spare (step r s) h =
        omega (arith, settles-spare r h, spare-step s (Reach-IsSound env h r))

-- However the bot has come to be where it is from a start without sessions, each handler that
-- waits does so for a call that names no session or the one of its interaction, for a reply to an
-- interaction that it has not replied to before, for a follow-up to one that it has, or for a
-- voice connection.
pub Reach-IsProper :
    {S : Type 0} (env : Env S) (w : World S) {b : Bot S}
    → Reach env (starting w) b
    → All IsProper b.running
Reach-IsProper env w {b} r =
    All-IsProper b.running (Reach-IsSound env (starting-IsSound env w) r).running

-- In a run of the bot from a start without sessions, whatever its calls come to and however they
-- interleave, the number of waits of handlers that settle is at most seven times the number of
-- interactions, so that without new interactions its handlers come to their ends.
pub settles-le :
    {S : Type 0} (env : Env S) (w : World S) {b : Bot S} (r : Reach env (starting w) b)
    → settles env r ≤ 7 * interactions env r
unfolding spare
settles-le env w r = omega (arith, settles-spare env r (starting-IsSound env w))

-- However the bot has come to be where it is from a start without sessions, each playback that its
-- handlers have started has at most one open request, and that is its current one.
pub playbacks-HasOneStream :
    {S : Type 0} (env : Env S) (w : World S) {b : Bot S}
    → Reach env (starting w) b
    → All HasOneStream b.playbacks
playbacks-HasOneStream env w r = (Reach-IsSound env (starting-IsSound env w) r).playbacks
