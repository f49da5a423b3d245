-- ===== src/Web/Station/Loading.antt =====
-- web/src/routes/stations/[sessionId]/+page.svelte, `onMount`: what the page shows in the end.
use radio_jockey.Base.{
  ℕ, ◌≤◌, Bool, true, false, not, ◌&&◌, [], ◌≡◌, refl, arith, Text, text, Outcome, ◌≢◌, Bool-cases,
  ok, thrown, ◌⊎◌, inl, inr, is_nonempty,
}
use radio_jockey.Proto.Messages.{ListQueueResponse}
use radio_jockey.Proto.Service.{Failure, connect_error, other_error, not_found}
use radio_jockey.Web.Machine.{bit, total}
use radio_jockey.Web.Errors.{friendly_error, add_track_error_message}
use radio_jockey.Web.Station.{
  Station, Caller, mount, adding, skipping, removing, Task, get_session, list_queue, add_track,
  skip_track, remove_track, Answer, Event, is_silent, type_url, submit, press_refresh, press_skip,
  track_added, poll, leave, press_remove, act, resume, enabled, on_queue, finish, on_mounted,
  on_no_session, fail, handle_add_track, on_track_added, handle_refresh, handle_skip, on_skipped,
  handle_remove, on_removed,
}

-- `onMount` has neither ended nor shown a message.
unfoldable pub is_unsettled : Station → Bool
is_unsettled s = not s.queue_loaded && not s.not_found && not (is_nonempty s.general_error)

unfoldable pub mounts : Task → ℕ
mounts (get_session request) = 1
mounts (list_queue mount request) = 1
mounts _ = 0

-- The page has its queue or says what is wrong.
abbrev pub IsSettled : Station → Type 0
IsSettled s = (s.queue_loaded ≡ true) ⊎ ((s.not_found ≡ true) ⊎ (s.general_error ≢ []))

pub settled_lem : (s : Station) → bit (is_unsettled s) ≡ 0 → IsSettled s
unfolding is_unsettled
settled_lem s h = elim (Bool-cases s.queue_loaded) [
  | inl loaded ↦ inl loaded
  | inr not_loaded ↦ elim (Bool-cases s.not_found) [
    | inl missing ↦ inr (inl missing)
    | inr there ↦ inr (inr (λ empty. absurd (ground arith)))
  ]
]

module _ (session_id : Text) where
  pub mount_acts :
      (e : Event) (s : Station)
      → enabled s e ≡ true
      → bit (is_unsettled (act session_id e s).0) ≤ bit (is_unsettled s)
  unfolding act handle_add_track handle_refresh handle_skip handle_remove is_unsettled
  mount_acts (type_url v) s on = omega arith
  mount_acts submit s on = omega arith
  mount_acts press_refresh s on = omega arith
  mount_acts press_skip s on = omega arith
  mount_acts track_added s on = omega arith
  mount_acts poll s on = omega arith
  mount_acts leave s on = omega arith
  mount_acts (press_remove i) s on = omega arith

  generic_settles : (err : Failure) (s : Station) → is_unsettled (fail err s) ≡ false
  unfolding is_unsettled friendly_error text
  generic_settles err s = ground arith

  finish_lem : (c : Caller) (s : Station) → bit (is_unsettled (finish c s)) ≤ bit (is_unsettled s)
  unfolding is_unsettled finish
  finish_lem mount s = ground arith
  finish_lem _ s = omega arith

  fail_lem : (err : Failure) (s : Station) → bit (is_unsettled (fail err s)) ≤ bit (is_unsettled s)
  fail_lem err s = ground (arith, generic_settles err s)

  no_session_settles : (err : Failure) (s : Station) → is_unsettled (on_no_session err s) ≡ false
  unfolding is_unsettled friendly_error text
  no_session_settles (connect_error not_found raw) s = ground arith
  no_session_settles (connect_error _ raw) s = ground arith
  no_session_settles (other_error message) s = ground arith

  unmoved_lem :
      (s s' : Station)
      → s'.queue_loaded ≡ s.queue_loaded
      → s'.not_found ≡ s.not_found
      → s'.general_error ≡ s.general_error
      → bit (is_unsettled s') ≤ bit (is_unsettled s)
  unfolding is_unsettled
  unmoved_lem s s' h h' h'' = rw (h, h', h'') omega arith

  on_queue_lem :
      (silent : Bool) (o : Outcome Failure ListQueueResponse) (s : Station)
      → bit (is_unsettled (on_queue silent o s)) ≤ bit (is_unsettled s)
  unfolding on_queue
  on_queue_lem silent (ok res) s = unmoved_lem s (record s { tracks = res.tracks }) refl refl refl
  on_queue_lem true (thrown err) s = omega arith
  on_queue_lem false (thrown err) s = fail_lem err s

  listed_lem :
      (c : Caller) (silent : Bool) (o : Outcome Failure ListQueueResponse) (s : Station)
      → bit (is_unsettled (finish c (on_queue silent o s))) ≤ bit (is_unsettled s)
  listed_lem c silent o s =
      omega (arith, finish_lem c (on_queue silent o s), on_queue_lem silent o s)

  mount_settles : (s : Station) → is_unsettled (finish mount s) ≡ false
  unfolding is_unsettled finish
  mount_settles s = refl

  pub mount_resumes :
      (t : Task) (a : Answer t) (s : Station)
      → (bit (is_unsettled (resume session_id t a s).0) ≤ total mounts (resume session_id t a s).1)
        ⊎ ((mounts t ≡ 0) × (bit (is_unsettled (resume session_id t a s).0) ≤ bit (is_unsettled s)))
  unfolding resume mounts on_mounted on_track_added on_skipped on_removed
  mount_resumes (get_session r) (ok res) s = ground arith
  mount_resumes (get_session r) (thrown err) s = ground (arith, no_session_settles err s)
  mount_resumes (list_queue mount r) a s = ground (arith, mount_settles (on_queue false a s))
  mount_resumes (list_queue c r) a s = inr (refl, listed_lem c (is_silent c) a s)
  mount_resumes (add_track r) (ok res) s =
      inr (refl, unmoved_lem s (record s { track_url = [] }) refl refl refl)
  mount_resumes (add_track r) (thrown err) s =
      let said = record s { add_error = (add_track_error_message err).0 } in
      ground (arith, finish_lem adding said, unmoved_lem s said refl refl refl)
  mount_resumes (skip_track r) (ok res) s = ground arith
  mount_resumes (skip_track r) (thrown err) s =
      ground (arith, finish_lem skipping (fail err s), fail_lem err s)
  mount_resumes (remove_track i r) (ok res) s = ground arith
  mount_resumes (remove_track i r) (thrown err) s =
      ground (arith, finish_lem (removing i) (fail err s), fail_lem err s)
