-- ===== src/Bot/Threads/System/Finishing.antt =====
-- discord-jockey/src/discord/command/play.ts: play commands that run next to each other, to their end.
use radio_jockey.Base.{
  ℕ, suc, Bool, true, Option, some, List, [], ◌∷◌, ◌++◌, Text, text, ◌≡◌, refl, sym, ap, inl, inr,
}
use mathlib.Core.Path.{subst}
use radio_jockey.Bot.Effects.{Env, World}
use radio_jockey.Bot.Playback.{Playback}
use radio_jockey.Bot.Threads.{Thread, pure, throw, doing, perform, attempt, ◌>>=◌, resume}
use radio_jockey.Bot.Threads.Play.{reply_and_add, start_playback, connect_to_channel, create_failed}
use radio_jockey.Bot.Threads.System.{
  Running, Bot, place, alone, resumed, replied_by, Reach, step, settle, Step,
}
use radio_jockey.Bot.Threads.System.Sound.{Waits}
use radio_jockey.Bot.Threads.System.Starting.{
  IsPlaying, IsUp, creating, replying, joining, looking, created, refused, found, joined, connected,
}

-- One of the handlers waits in `x`, the others are `before` and `after`.
pub record IsAt {S : Type 0} (x : Thread (Option Playback)) (before after : List Running)
    (playbacks : List Playback) (b : Bot S) : Type 0 where
  pub current : Running
  pub split : b.running ≡ before ++ current ∷ after
  pub thread : current.thread ≡ x
  pub left : b.playbacks ≡ playbacks

-- It has come to its end and started the playback.
pub record HasPlayed {S : Type 0} (p : Playback) (before after : List Running)
    (playbacks : List Playback) (b : Bot S) : Type 0 where
  pub split : b.running ≡ before ++ after
  pub left : b.playbacks ≡ p ∷ playbacks

module _ {S : Type 0} where
  pub place_IsAt :
      {x : Thread (Option Playback)} {ps : List Playback} (id : Text) (replied : Bool) (settled : ℕ)
      (r : Thread (Option Playback) × World S) (before after : List Running)
      (playbacks : List Playback)
      → r.0 ≡ x
      → Waits x
      → playbacks ≡ ps
      → IsAt x before after ps (place id replied settled r before after playbacks)
  unfolding place
  place_IsAt id replied settled (pure a, w) before after playbacks e h l =
      absurd (subst Waits (sym e) h)
  place_IsAt id replied settled (throw f, w) before after playbacks e h l =
      absurd (subst Waits (sym e) h)
  place_IsAt id replied settled (doing o k, w) before after playbacks e h l = record {
    current = _;
    split = refl;
    thread = e;
    left = l;
  }

  place_end :
      {ps : List Playback} (id : Text) (replied : Bool) (settled : ℕ)
      (r : Thread (Option Playback) × World S) (before after : List Running)
      (playbacks : List Playback) (p : Playback)
      → r.0 ≡ pure (some p)
      → playbacks ≡ ps
      → HasPlayed p before after ps (place id replied settled r before after playbacks)
  unfolding place
  place_end id replied settled (x, w) before after playbacks p e l =
      rw e (record { split = refl; left = ap (λ qs. p ∷ qs) l })

  module _ (env : Env S) where
    abbrev Reaching : Bot S → (Bot S → Type 0) → Type 0
    Reaching a P = (c : Bot S) × Reach env a c × P c

    module _ {a b : Bot S} {x : Thread (Option Playback)} {before after : List Running}
        {ps : List Playback} (r : Reach env a b) (at : IsAt x before after ps b) where
      abbrev goes : Step env b (resumed env before after at.current b)
      goes = settle before after at.current at.split

      reaches :
          {y : Thread (Option Playback)}
          → (resume (alone env) x b.world).0 ≡ y
          → (resume (alone env) at.current.thread b.world).0 ≡ y
      reaches {y} = subst (λ x. (resume (alone env) x b.world).0 ≡ y) (sym at.thread)

      -- The next wait, or the end.
      next :
          {y : Thread (Option Playback)}
          → (resume (alone env) x b.world).0 ≡ y
          → Waits y
          → Reaching a (IsAt y before after ps)
      unfolding resumed
      next e h = (
        resumed env before after at.current b,
        step r goes,
        place_IsAt at.current.session_id (replied_by at.current.thread at.current.replied)
            (suc at.current.settled) (resume (alone env) at.current.thread b.world) before after
            b.playbacks (reaches e) h at.left,
      )

      last :
          (p : Playback)
          → (resume (alone env) x b.world).0 ≡ pure (some p)
          → Reaching a (HasPlayed p before after ps)
      unfolding resumed
      last p e = (
        resumed env before after at.current b,
        step r goes,
        place_end at.current.session_id (replied_by at.current.thread at.current.replied)
            (suc at.current.settled) (resume (alone env) at.current.thread b.world) before after
            b.playbacks p (reaches e) at.left,
      )

    module _ (up : IsUp env) (id channel : Text) {before after : List Running} {ps : List Playback}
        {a : Bot S} where
      finish_replying :
          Reaching a (IsAt (replying env id channel) before after ps)
          → (p : Playback) × IsPlaying id p × Reaching a (HasPlayed p before after ps)
      unfolding replying joining perform attempt ◌>>=◌ reply_and_add start_playback
          connect_to_channel
      finish_replying (b, r, at) =
          let (connection, e) =
            joined env id channel b.world
              (up.delivers (text "Starting playback!") b.world.external) in
          let (c, s, at') = next r at e refl in
          let (p, e', h) =
            connected env id channel connection c.world (up.connects connection c.world.external) in
          (p, h, last s at' p e')

      -- A play command that waits for the session to be created, to its end.
      pub finish :
          Reaching a (IsAt (creating env id channel) before after ps)
          → (p : Playback) × IsPlaying id p × Reaching a (HasPlayed p before after ps)
      unfolding replying looking perform attempt ◌>>=◌ reply_and_add create_failed
      finish (b, r, at) =
          elim (up.creates (record { session_id = id; archive = true }) [] b.world.external) [
            | inl (response, e) ↦
                finish_replying (next r at (created env id channel b.world response e) refl)
            | inr (raw, e) ↦
                let (c, s, at') = next r at (refused env id channel b.world raw e) refl in
                let (response, e') = up.finds (record { session_id = id }) [] c.world.external in
                finish_replying (next s at' (found env id channel raw c.world response e') refl)
          ]
