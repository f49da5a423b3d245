-- ===== src/Web/Station/Urls.antt =====
-- web/src/routes/stations/[sessionId]/+page.svelte: the URL of the stream, which the page is given once.
use radio_jockey.Base.{
  ℕ, ◌+◌, ◌≤◌, Bool, true, false, is_nonempty, ◌++◌, Text, ◌≡◌, refl, ap, ◌∙◌, arith, ok, thrown,
  Outcome, ◌⊎◌, inl, inr,
}
use radio_jockey.Proto.Messages.{ListQueueResponse}
use radio_jockey.Proto.Service.{Failure, connect_error, other_error, not_found}
use radio_jockey.Web.Machine.{System, Step, happen, settle, Reach, here, step, bit, total}
use radio_jockey.Web.Machine.Runs.{total-append, total-middle}
use radio_jockey.Web.Station.{
  Station, Task, Caller, get_session, list_queue, add_track, skip_track, remove_track, Answer,
  Event, type_url, press_remove, removing, on_queue, finish, on_no_session, on_mounted,
  on_track_added, on_skipped, on_removed, handle_add_track, handle_refresh, handle_skip,
  handle_remove, act, resume, station, opened, is_silent,
}

unfoldable pub sessions : Task → ℕ
sessions (get_session request) = 1
sessions _ = 0

module _ (session_id : Text) where
  pub act_url :
      (e : Event) (s : Station)
      → ((act session_id e s).0.stream_url ≡ s.stream_url)
        × (total sessions (act session_id e s).1 ≡ 0)
  unfolding act sessions handle_add_track handle_refresh handle_skip handle_remove
  act_url (type_url value) s = (refl, refl)
  act_url (press_remove index) s = (refl, refl)
  act_url _ s = (refl, refl)

  finish_url :
      (c : Caller) (s : Station)
      → ((finish c s).stream_url ≡ s.stream_url) × ((finish c s).gone ≡ s.gone)
  unfolding finish
  finish_url (removing index) s = (refl, refl)
  finish_url _ s = (refl, refl)

  no_session_url :
      (err : Failure) (s : Station)
      → ((on_no_session err s).stream_url ≡ s.stream_url) × ((on_no_session err s).gone ≡ s.gone)
  no_session_url (connect_error not_found raw) s = (refl, refl)
  no_session_url (connect_error _ raw) s = (refl, refl)
  no_session_url (other_error message) s = (refl, refl)

  queue_url :
      (silent : Bool) (o : Outcome Failure ListQueueResponse) (s : Station)
      → ((on_queue silent o s).stream_url ≡ s.stream_url) × ((on_queue silent o s).gone ≡ s.gone)
  unfolding on_queue
  queue_url silent (ok res) s = (refl, refl)
  queue_url true (thrown err) s = (refl, refl)
  queue_url false (thrown err) s = (refl, refl)

  -- Only the answer to the call of `onMount` gives the page a URL.
  pub resume_url :
      (t : Task) (a : Answer t) (s : Station)
      → ((sessions t ≡ 1) ⊎ ((resume session_id t a s).0.stream_url ≡ s.stream_url))
        × ((resume session_id t a s).0.gone ≡ s.gone)
        × (total sessions (resume session_id t a s).1 ≡ 0)
  unfolding resume sessions on_mounted on_track_added on_skipped on_removed finish
  resume_url (get_session r) (ok res) s = (inl refl, refl, refl)
  resume_url (get_session r) (thrown err) s = (inl refl, (no_session_url err s).1, refl)
  resume_url (list_queue c r) o s =
      let (url, gone) = finish_url c (on_queue (is_silent c) o s) in
      let (url', gone') = queue_url (is_silent c) o s in (inr (url ∙ url'), gone ∙ gone', refl)
  resume_url (add_track r) (ok res) s = (inr refl, refl, refl)
  resume_url (add_track r) (thrown err) s = (inr refl, refl, refl)
  resume_url (skip_track r) (ok res) s = (inr refl, refl, refl)
  resume_url (skip_track r) (thrown err) s = (inr refl, refl, refl)
  resume_url (remove_track i r) (ok res) s = (inr refl, refl, refl)
  resume_url (remove_track i r) (thrown err) s = (inr refl, refl, refl)

  -- As long as the call is pending there is no URL, and there is one call.
  abbrev pub HasOneUrl : System (station session_id) → Type 0
  HasOneUrl u = bit (is_nonempty u.state.stream_url) + total sessions u.pending ≤ 1

  Step-HasOneUrl :
      {u v : System (station session_id)}
      → Step (station session_id) u v
      → HasOneUrl u
      → HasOneUrl v
  Step-HasOneUrl {u} (happen e on) h =
      let (url, none_begun) = act_url e u.state in
      omega (
        arith,
        h,
        ap (λ w. bit (is_nonempty w)) url,
        none_begun,
        total-append sessions (act session_id e u.state).1 u.pending,
      )
  Step-HasOneUrl {u} (settle before after t a e) h =
      let (url, _, none_begun) = resume_url t a u.state in
      let parts : total sessions u.pending ≡ sessions t + total sessions (before ++ after) =
        ap (total sessions) e ∙ total-middle sessions t before after in
      let begun = total-append sessions (resume session_id t a u.state).1 (before ++ after) in
      elim url [
        | inl first ↦ ground (arith, first, h, parts, begun, none_begun)
        | inr same ↦ omega (arith, h, parts, begun, none_begun, ap (λ w. bit (is_nonempty w)) same)
      ]

  pub Reach-HasOneUrl :
      {u : System (station session_id)}
      → Reach (station session_id) (opened session_id) u
      → HasOneUrl u
  unfolding sessions
  Reach-HasOneUrl here = omega arith
  Reach-HasOneUrl (step r s) = Step-HasOneUrl s (Reach-HasOneUrl r)
