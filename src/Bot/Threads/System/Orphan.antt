-- ===== src/Bot/Threads/System/Orphan.antt =====
-- discord-jockey/src/discord/command/play.ts: a playback that ends takes the session of another along.
use radio_jockey.Base.{ℕ, true, none, [], ◌∷◌, Text, ◌≡◌, lookup}
use radio_jockey.Bot.Effects.{Env, World}
use radio_jockey.Bot.Playback.{Playback, Played}
use radio_jockey.Bot.Threads.System.{Bot, Reach, starting}
use radio_jockey.Bot.Threads.System.Starting.{IsPlaying}

module _ {S : Type 0} (env : Env S) where
  -- The bot can come to where a playback of the session is streaming that the table does not know.
  abbrev pub LeavesOrphan : World S → Text → Type 0
  LeavesOrphan w id =
      (b : Bot S) × (p : Playback) × (q : Playback) × Reach env (starting w) b
      × (b.running ≡ [])
      × (b.playbacks ≡ p ∷ q ∷ [])
      × IsPlaying id p
      × (q.stopped ≡ true)
      × (lookup id b.world.sessions ≡ none)

module _ {S : Type 0} (env : Env S) (destroys : (c : ℕ) (s : S) → (env.destroy c s).0 ≡ none) where
  -- A playback that has ended, and a table without its session.
  abbrev HasEnded : Text → Played S → Type 0
  HasEnded id r = (r.1.stopped ≡ true) × (lookup id r.2.sessions ≡ none)
