-- ===== src/Web/Station/Waiting.antt =====
-- web/src/routes/stations/[sessionId]/+page.svelte: the buttons that wait, and how the waits end.
use radio_jockey.Base.{
  ℕ, ◌+◌, ◌≤◌, ◌<◌, Bool, true, false, ◌==◌, ==_iff, [], Text, ◌≡◌, refl, ap, arith, Outcome, ok,
  thrown,
}
use radio_jockey.Proto.Messages.{ListQueueResponse}
use radio_jockey.Proto.Service.{Failure, connect_error, other_error, not_found}
use radio_jockey.Web.Machine.{System, Reach, bit, total}
use radio_jockey.Web.Machine.Runs.{Reach-Counted, Reach-Watched}
use radio_jockey.Web.Machine.Settling.{ComesToRest, Reach-ComesToRest}
use radio_jockey.Web.Errors.{add_track_error_message}
use radio_jockey.Web.Sets.{has_key, has_key-add_key, has_key-delete_key, nat_key}
use radio_jockey.Web.Station.{
  Station, Caller, mount, adding, refreshing, skipping, removing, Task, get_session, list_queue,
  add_track, skip_track, remove_track, Answer, Event, submit, press_refresh, press_skip,
  press_remove, act, resume, enabled, on_queue, finish, on_mounted, on_no_session, fail,
  handle_add_track, on_track_added, handle_refresh, handle_skip, on_skipped, handle_remove,
  on_removed, is_silent, station, opened, fresh,
}
use radio_jockey.Web.Station.Loading.{
  IsSettled, settled_lem, is_unsettled, mounts, mount_acts, mount_resumes,
}

-- A button of the page that waits.
pub data Button : Type 0 where
  add_button refresh_button skip_button : Button
  remove_button : (index : ℕ) → Button

-- The caller whose wait a button shows.
waits_for : Button → Caller → ℕ
waits_for add_button adding = 1
waits_for refresh_button refreshing = 1
waits_for skip_button skipping = 1
waits_for (remove_button i) (removing j) = bit (j == i)
waits_for _ _ = 0

caller_of : Task → Caller
caller_of (get_session request) = mount
caller_of (list_queue caller request) = caller
caller_of (add_track request) = adding
caller_of (skip_track request) = skipping
caller_of (remove_track index request) = removing index

kind : Button → Task → ℕ
kind b t = waits_for b (caller_of t)

abbrev pub is_waiting : Button → Station → Bool
is_waiting add_button s = s.adding
is_waiting refresh_button s = s.refreshing
is_waiting skip_button s = s.skipping
is_waiting (remove_button i) s = has_key i s.removing_indices

fail_waiting :
    (b : Button) (err : Failure) (s : Station) → is_waiting b (fail err s) ≡ is_waiting b s
fail_waiting (remove_button i) err s = refl
fail_waiting _ err s = refl

on_queue_waiting :
    (b : Button) (silent : Bool) (o : Outcome Failure ListQueueResponse) (s : Station)
    → is_waiting b (on_queue silent o s) ≡ is_waiting b s
unfolding on_queue
on_queue_waiting (remove_button i) silent (ok res) s = refl
on_queue_waiting _ silent (ok res) s = refl
on_queue_waiting b true (thrown err) s = refl
on_queue_waiting b false (thrown err) s = fail_waiting b err s

mount_waits : (b : Button) → waits_for b mount ≡ 0
unfolding waits_for
mount_waits (remove_button i) = refl
mount_waits _ = refl

session_waiting :
    (b : Button) (url : Text) (s : Station)
    → is_waiting b (record s { stream_url = url }) ≡ is_waiting b s
session_waiting (remove_button i) url s = refl
session_waiting _ url s = refl

url_waiting :
    (b : Button) (s : Station) → is_waiting b (record s { track_url = [] }) ≡ is_waiting b s
url_waiting (remove_button i) s = refl
url_waiting _ s = refl

add_error_waiting :
    (b : Button) (message : Text) (s : Station)
    → is_waiting b (record s { add_error = message }) ≡ is_waiting b s
add_error_waiting (remove_button i) message s = refl
add_error_waiting _ message s = refl

no_session_waiting :
    (b : Button) (err : Failure) (s : Station) → is_waiting b (on_no_session err s) ≡ is_waiting b s
no_session_waiting (remove_button i) (connect_error not_found raw) s = refl
no_session_waiting (remove_button i) (connect_error _ raw) s = refl
no_session_waiting (remove_button i) (other_error message) s = refl
no_session_waiting _ (connect_error not_found raw) s = refl
no_session_waiting _ (connect_error _ raw) s = refl
no_session_waiting _ (other_error message) s = refl

-- The last act of a caller puts its own button right, and no other.
finish_waiting :
    (b : Button) (c : Caller) (s : Station)
    → waits_for b c ≤ bit (is_waiting b s)
    → bit (is_waiting b (finish c s)) + waits_for b c ≡ bit (is_waiting b s)
unfolding finish waits_for
finish_waiting add_button adding s h = ground arith
finish_waiting add_button _ s h = omega arith
finish_waiting refresh_button refreshing s h = ground arith
finish_waiting refresh_button _ s h = omega arith
finish_waiting skip_button skipping s h = ground arith
finish_waiting skip_button _ s h = omega arith
finish_waiting (remove_button i) (removing j) s h =
    ground (arith, ==_iff j i, has_key-delete_key j i s.removing_indices)
finish_waiting (remove_button i) _ s h = omega arith

-- No button is marked as loading, and the page has its queue or says what is wrong.
pub record IsIdle (s : Station) : Type 0 where
  pub add : s.adding ≡ false
  pub refresh : s.refreshing ≡ false
  pub skip : s.skipping ≡ false
  pub remove : (index : ℕ) → has_key index s.removing_indices ≡ false
  pub settled : IsSettled s

unfoldable pub weight : Task → ℕ
weight (list_queue caller request) = 1
weight _ = 2

module _ (session_id : Text) where
  waiting_acts :
      (b : Button) (e : Event) (s : Station)
      → enabled s e ≡ true
      → bit (is_waiting b (act session_id e s).0)
        ≡ bit (is_waiting b s) + total (kind b) (act session_id e s).1
  unfolding act handle_add_track handle_refresh handle_skip handle_remove kind waits_for caller_of
  waiting_acts add_button submit s on = ground arith
  waiting_acts refresh_button press_refresh s on = ground arith
  waiting_acts skip_button press_skip s on = ground arith
  waiting_acts (remove_button i) (press_remove j) s on =
      ground (arith, ==_iff j i, has_key-add_key j i s.removing_indices)
  waiting_acts add_button _ s on = omega arith
  waiting_acts refresh_button _ s on = omega arith
  waiting_acts skip_button _ s on = omega arith
  waiting_acts (remove_button i) _ s on = omega arith

  waiting_resumes :
      (b : Button) (t : Task) (a : Answer t) (s : Station)
      → kind b t ≤ bit (is_waiting b s)
      → bit (is_waiting b (resume session_id t a s).0) + kind b t
        ≡ bit (is_waiting b s) + total (kind b) (resume session_id t a s).1
  unfolding resume kind caller_of on_mounted on_track_added on_skipped on_removed
  waiting_resumes b (get_session r) (ok res) s h =
      omega (arith, mount_waits b, ap bit (session_waiting b res.stream_url s))
  waiting_resumes b (get_session r) (thrown err) s h =
      omega (arith, mount_waits b, ap bit (no_session_waiting b err s))
  waiting_resumes b (list_queue c r) o s h = omega (
    arith,
    finish_waiting b c (on_queue (is_silent c) o s),
    ap bit (on_queue_waiting b (is_silent c) o s),
  )
  waiting_resumes b (add_track r) (ok res) s h = omega (arith, ap bit (url_waiting b s))
  waiting_resumes b (add_track r) (thrown err) s h =
      let said = record s { add_error = (add_track_error_message err).0 } in
      omega (
        arith,
        finish_waiting b adding said,
        ap bit (add_error_waiting b (add_track_error_message err).0 s),
      )
  waiting_resumes b (skip_track r) (ok res) s h = omega arith
  waiting_resumes b (skip_track r) (thrown err) s h =
      omega (arith, finish_waiting b skipping (fail err s), ap bit (fail_waiting b err s))
  waiting_resumes b (remove_track i r) (ok res) s h = omega arith
  waiting_resumes b (remove_track i r) (thrown err) s h =
      omega (arith, finish_waiting b (removing i) (fail err s), ap bit (fail_waiting b err s))

  fresh_waiting :
      (b : Button) → bit (is_waiting b fresh) ≡ total (kind b) (opened session_id).pending
  unfolding kind waits_for caller_of has_key
  fresh_waiting (remove_button i) = refl
  fresh_waiting _ = refl

  pub falls :
      (t : Task) (a : Answer t) (s : Station) → total weight (resume session_id t a s).1 < weight t
  unfolding resume weight on_mounted on_track_added on_skipped on_removed
  falls (get_session r) (ok res) s = omega arith
  falls (get_session r) (thrown err) s = omega arith
  falls (list_queue c r) o s = omega arith
  falls (add_track r) (ok res) s = omega arith
  falls (add_track r) (thrown err) s = omega arith
  falls (skip_track r) (ok res) s = omega arith
  falls (skip_track r) (thrown err) s = omega arith
  falls (remove_track i r) (ok res) s = omega arith
  falls (remove_track i r) (thrown err) s = omega arith

  none_waits :
      {u : System (station session_id)}
      → Reach (station session_id) (opened session_id) u
      → u.pending ≡ []
      → (b : Button) → is_waiting b u.state ≡ false
  unfolding kind waits_for caller_of has_key
  none_waits {u} r e b = ground (
    arith,
    Reach-Counted (station session_id) (kind b) (is_waiting b) (waiting_acts b) (waiting_resumes b)
        r (fresh_waiting b),
    ap (total (kind b)) e,
  )

  watched_at_first : bit (is_unsettled fresh) ≤ total mounts (opened session_id).pending
  unfolding is_unsettled mounts
  watched_at_first = omega arith

  pub at_rest :
      {u : System (station session_id)}
      → Reach (station session_id) (opened session_id) u
      → u.pending ≡ []
      → IsIdle u.state
  at_rest {u} r e =
      let watched =
        Reach-Watched (station session_id) mounts is_unsettled (mount_acts session_id)
          (mount_resumes session_id) r watched_at_first in
      record {
        add = none_waits r e add_button;
        refresh = none_waits r e refresh_button;
        skip = none_waits r e skip_button;
        remove = λ i. none_waits r e (remove_button i);
        settled = settled_lem u.state (omega (arith, watched, ap (total mounts) e));
      }

  -- However a station page that was opened has come to be where it is: without a new event no more
  -- calls can settle than the pending calls weigh, whatever they are answered by and in whatever
  -- order, where a fetch of the queue weighs one and any other call two; once none is pending, no
  -- button is marked as loading, and the page has loaded its queue, or says that the station does
  -- not exist, or shows an error; and if every call can be answered, that is reached.
  pub station-ComesToRest :
      (s : System (station session_id))
      → Reach (station session_id) (opened session_id) s
      → ComesToRest (station session_id) weight IsIdle s
  station-ComesToRest s r =
      Reach-ComesToRest (station session_id) weight IsIdle falls (opened session_id) s
        (λ u q e. at_rest q e) r
