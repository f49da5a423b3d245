-- ===== src/Web/Player/Wiring.antt =====
-- web/src/routes/stations/[sessionId]/+page.svelte: what the audio player shows, and its element.
use radio_jockey.Base.{
  ℕ, suc, Bool, true, false, Option, none, some, List, [], ◌∷◌, Text, ◌≡◌, refl, sym, ap, ◌∙◌,
  arith, is_nonempty, ◌⊎◌, inl, inr, Bool-cases,
}
use mathlib.Core.Path.{subst}
use radio_jockey.Web.Player.{
  Audio, Player, Event, show, press_play, press_stop, slide, with_graph, ensure_audio_graph,
  set_gain, set_volume, bound, play, play_on, stop, stop_on, on_event, run, silent, tell,
  state_playing,
}

abbrev pub is_built : Option ℕ → ℕ
is_built none = 0
is_built (some g) = 1

-- What the page says of the element, by its `playing` and the gain, is so.
abbrev pub Agrees : (url : Text) → Option Audio → (playing : Bool) → (gain : Option ℕ) → Type 0
Agrees url none playing gain = (playing ≡ false) × (gain ≡ none)
Agrees url (some el) playing gain =
    ((playing ≡ true) × (el.paused ≡ false) × (el.src ≡ some url) × (is_built gain ≡ 1))
    ⊎ ((playing ≡ false) × (el.paused ≡ true) × (el.src ≡ none))

pub record IsWired (url : Text) (p : Player) : Type 0 where
  pub one_graph : p.sources ≡ is_built p.gain
  pub agrees : Agrees url p.audio_el p.playing p.gain

set_gain_built : (v : ℕ) (g : Option ℕ) → is_built (set_gain v g) ≡ is_built g
set_gain_built v none = refl
set_gain_built v (some g) = refl

set_gain-Agrees :
    (url : Text) (v : ℕ) (el : Option Audio) (playing : Bool) (g : Option ℕ)
    → Agrees url el playing g
    → Agrees url el playing (set_gain v g)
set_gain-Agrees url v el playing none h = h
set_gain-Agrees url v none playing (some g) (off, e) = absurd (ground arith)
set_gain-Agrees url v (some el) playing (some g) (inl (on, runs, from, built)) =
    inl (on, runs, from, refl)
set_gain-Agrees url v (some el) playing (some g) (inr h) = inr h

-- A graph is made when there is none.
abbrev HasGraph : Player → Player → Type 0
HasGraph p q = (q.sources ≡ is_built q.gain) × (is_built q.gain ≡ 1) × (q.audio_el ≡ p.audio_el)

with_graph_lem :
    (el : Audio) (g : Option ℕ) (p : Player)
    → p.gain ≡ g
    → p.sources ≡ is_built g
    → HasGraph p (with_graph (some el) g p)
with_graph_lem el none p e h = (ap suc h, refl, refl)
with_graph_lem el (some g) p e h = rw e (h, refl, refl)

bound-Agrees :
    (url : Text) (el : Option Audio) (playing : Bool) (g : Option ℕ)
    → Agrees url el playing g
    → Agrees url (bound el) playing g
bound-Agrees url none playing g (off, none_yet) = inr (off, refl, refl)
bound-Agrees url (some el) playing g h = h

module _ (media_session : Bool) (url : Text) where
  stop-IsWired :
      (el : Option Audio) (p : Player)
      → IsWired url p
      → IsWired url (stop_on media_session url el p)
  stop-IsWired none p h = h
  stop-IsWired (some el) p h = record { one_graph = h.one_graph; agrees = inr (refl, refl, refl) }

  started-IsWired :
      (q : Player)
      → q.audio_el ≡ some (record { src = some url; paused = false })
      → q.sources ≡ is_built q.gain
      → is_built q.gain ≡ 1
      → IsWired url (tell media_session url state_playing (record q { playing = true }))
  started-IsWired q e one built = record {
    one_graph = one;
    agrees = subst (λ a. Agrees url a true q.gain) (sym e) (inl (refl, refl, refl, built));
  }

  play-IsWired :
      (el : Option Audio) (p : Player)
      → IsWired url p
      → IsWired url (play_on media_session url el p)
  unfolding ensure_audio_graph
  play-IsWired none p h = h
  play-IsWired (some el) p h =
      let sounding : Audio = record { src = some url; paused = false } in
      let q : Player = record p { audio_el = some sounding } in
      let (one, built, kept) = with_graph_lem sounding p.gain q refl h.one_graph in
      elim (Bool-cases (is_nonempty url)) [
        | inl streams ↦ rw streams (started-IsWired (ensure_audio_graph q) kept one built)
        | inr no_stream ↦ rw no_stream h
      ]

  pub on_event-IsWired :
      (e : Event) (p : Player) → IsWired url p → IsWired url (on_event media_session url e p)
  unfolding on_event play stop set_volume
  on_event-IsWired show p h = elim (Bool-cases (is_nonempty url)) [
    | inl streams ↦ rw streams (record {
      one_graph = h.one_graph;
      agrees = bound-Agrees url p.audio_el p.playing p.gain h.agrees;
    })
    | inr no_stream ↦ rw no_stream h
  ]
  on_event-IsWired press_play p h = play-IsWired p.audio_el p h
  on_event-IsWired press_stop p h = stop-IsWired p.audio_el p h
  on_event-IsWired (slide v) p h = record {
    one_graph = h.one_graph ∙ sym (set_gain_built v p.gain);
    agrees = set_gain-Agrees url v p.audio_el p.playing p.gain h.agrees;
  }

  run_from-IsWired :
      (es : List Event) (p : Player) → IsWired url p → IsWired url (run media_session url es p)
  run_from-IsWired [] p h = h
  run_from-IsWired (e ∷ es) p h =
      run_from-IsWired es (on_event media_session url e p) (on_event-IsWired e p h)

  -- Whatever is done with the audio player, in any order, `createMediaElementSource` has been
  -- called once if there is a gain node and never if there is none; without an audio element it is
  -- not playing and has no gain node; with one, either it says that it plays, and the element was
  -- told to play the URL of the stream, with a gain node, or it says that it does not, and the
  -- element is paused without a source.
  pub run-IsWired : (es : List Event) → IsWired url (run media_session url es silent)
  run-IsWired es = run_from-IsWired es silent (record { one_graph = refl; agrees = (refl, refl) })
