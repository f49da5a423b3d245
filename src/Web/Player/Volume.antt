-- ===== src/Web/Player/Volume.antt =====
-- web/src/routes/stations/[sessionId]/+page.svelte: the slider, and the gain that one hears.
use radio_jockey.Base.{ℕ, Bool, some, [], ◌∷◌, Text, ◌≡◌, refl, is_nonempty, true, arith}
use radio_jockey.Web.Player.{
  Player, show, press_play, slide, on_event, run, silent, ensure_audio_graph, play, set_volume,
}

-- One hears the gain `g` while the slider is at `v`.
abbrev pub Hears : Player → (v : ℕ) → (g : ℕ) → Type 0
Hears p v g = (p.playing ≡ true) × (p.volume ≡ v) × (p.gain ≡ some g)

module _ (media_session : Bool) where
  -- With a stream URL that is not empty, a slider that is moved before the first play is not
  -- followed: the player plays at the gain 1 whatever the slider says; moved once more, it is
  -- followed.
  pub slide_lag :
      (url : Text) (v w : ℕ)
      → is_nonempty url ≡ true
      → Hears (run media_session url (show ∷ slide v ∷ press_play ∷ []) silent) v 100
        × Hears (run media_session url (show ∷ slide v ∷ press_play ∷ slide w ∷ []) silent) w w
  unfolding on_event play set_volume ensure_audio_graph
  slide_lag [] v w h = absurd (ground arith)
  slide_lag (c ∷ t) v w h = ((refl, refl, refl), (refl, refl, refl))
