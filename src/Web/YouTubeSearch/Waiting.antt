-- ===== src/Web/YouTubeSearch/Waiting.antt =====
-- web/src/lib/components/YouTubeSearch.svelte: the marks of the buttons that wait.
use radio_jockey.Base.{
  ℕ, ◌+◌, ◌≤◌, ◌<◌, Bool, true, false, not, none, some, [], Text, text_eq, text_eq_iff, ◌≡◌, refl,
  ap, arith, ok, thrown,
}
use radio_jockey.Web.Machine.{System, Reach, bit, total}
use radio_jockey.Web.Machine.Runs.{Reach-Counted}
use radio_jockey.Web.Machine.Settling.{ComesToRest, Reach-ComesToRest}
use radio_jockey.Web.Sets.{has_key, has_key-add_key, has_key-delete_key, text_key}
use radio_jockey.Web.YouTubeSearch.{
  Panel, Task, search, add, Answer, failed, refused, found, Event, submit, press_next, press_prev,
  press_add, act, resume, enabled, is_none, panel, fresh, handle_submit, handle_next, handle_prev,
  handle_add,
}

searches : Task → ℕ
searches (search query none) = 1
searches _ = 0

turns : Task → ℕ
turns (search query (some turn)) = 1
turns _ = 0

adds : Text → Task → ℕ
adds video_id (add request w) = bit (text_eq w video_id)
adds video_id _ = 0

-- No button is marked as loading.
pub record IsIdle (p : Panel) : Type 0 where
  pub searching : p.searching ≡ false
  pub turning : is_none p.page_loading_direction ≡ true
  pub adding : (video_id : Text) → has_key video_id p.adding_ids ≡ false

module _ (session_id : Text) where
  searching_acts :
      (e : Event) (p : Panel)
      → enabled p e ≡ true
      → bit (act session_id e p).0.searching
        ≡ bit p.searching + total searches (act session_id e p).1
  unfolding handle_submit handle_next handle_prev handle_add searches
  searching_acts (submit query) p on = ground arith
  searching_acts press_next p on = ground arith
  searching_acts press_prev p on = ground arith
  searching_acts (press_add video_id) p on = ground arith

  searching_resumes :
      (t : Task) (a : Answer t) (p : Panel)
      → searches t ≤ bit p.searching
      → bit (resume t a p).0.searching + searches t
        ≡ bit p.searching + total searches (resume t a p).1
  unfolding resume searches
  searching_resumes (search query none) (failed err) p h = ground arith
  searching_resumes (search query none) (refused status) p h = ground arith
  searching_resumes (search query none) (found rs t) p h = ground arith
  searching_resumes (search query (some turn)) (failed err) p h = ground arith
  searching_resumes (search query (some turn)) (refused status) p h = ground arith
  searching_resumes (search query (some turn)) (found rs t) p h = ground arith
  searching_resumes (add request w) (ok r) p h = ground arith
  searching_resumes (add request w) (thrown e) p h = ground arith

  loading : Panel → Bool
  loading p = not (is_none p.page_loading_direction)

  turning_acts :
      (e : Event) (p : Panel)
      → enabled p e ≡ true
      → bit (loading (act session_id e p).0) ≡ bit (loading p) + total turns (act session_id e p).1
  unfolding handle_submit handle_next handle_prev handle_add turns loading
  turning_acts (submit query) p on = ground arith
  turning_acts press_next p on = ground arith
  turning_acts press_prev p on = ground arith
  turning_acts (press_add video_id) p on = ground arith

  turning_resumes :
      (t : Task) (a : Answer t) (p : Panel)
      → turns t ≤ bit (loading p)
      → bit (loading (resume t a p).0) + turns t ≡ bit (loading p) + total turns (resume t a p).1
  unfolding resume turns loading
  turning_resumes (search query none) (failed err) p h = ground arith
  turning_resumes (search query none) (refused status) p h = ground arith
  turning_resumes (search query none) (found rs t) p h = ground arith
  turning_resumes (search query (some turn)) (failed err) p h = ground arith
  turning_resumes (search query (some turn)) (refused status) p h = ground arith
  turning_resumes (search query (some turn)) (found rs t) p h = ground arith
  turning_resumes (add request w) (ok r) p h = ground arith
  turning_resumes (add request w) (thrown e) p h = ground arith

  module _ (v : Text) where
    adding_acts :
        (e : Event) (p : Panel)
        → enabled p e ≡ true
        → bit (has_key v (act session_id e p).0.adding_ids)
          ≡ bit (has_key v p.adding_ids) + total (adds v) (act session_id e p).1
    unfolding handle_submit handle_next handle_prev handle_add adds
    adding_acts (submit query) p on = ground arith
    adding_acts press_next p on = ground arith
    adding_acts press_prev p on = ground arith
    adding_acts (press_add video_id) p on =
        ground (arith, text_eq_iff video_id v, has_key-add_key video_id v p.adding_ids)

    adding_resumes :
        (t : Task) (a : Answer t) (p : Panel)
        → adds v t ≤ bit (has_key v p.adding_ids)
        → bit (has_key v (resume t a p).0.adding_ids) + adds v t
          ≡ bit (has_key v p.adding_ids) + total (adds v) (resume t a p).1
    unfolding resume adds
    adding_resumes (search query none) (failed err) p h = ground arith
    adding_resumes (search query none) (refused status) p h = ground arith
    adding_resumes (search query none) (found rs t) p h = ground arith
    adding_resumes (search query (some turn)) (failed err) p h = ground arith
    adding_resumes (search query (some turn)) (refused status) p h = ground arith
    adding_resumes (search query (some turn)) (found rs t) p h = ground arith
    adding_resumes (add request w) (ok r) p h =
        ground (arith, text_eq_iff w v, has_key-delete_key w v p.adding_ids)
    adding_resumes (add request w) (thrown e) p h =
        ground (arith, text_eq_iff w v, has_key-delete_key w v p.adding_ids)

  pub at_rest :
      {u : System (panel session_id)}
      → Reach (panel session_id) (record { state = fresh; pending = [] }) u
      → u.pending ≡ []
      → IsIdle u.state
  unfolding has_key loading
  at_rest {u} r e = record {
    searching = ground (
      arith,
      Reach-Counted (panel session_id) searches (λ p. p.searching) searching_acts searching_resumes
          r refl,
      ap (total searches) e,
    );
    turning = ground (
      arith,
      Reach-Counted (panel session_id) turns loading turning_acts turning_resumes r refl,
      ap (total turns) e,
    );
    adding = λ v. ground (
      arith,
      Reach-Counted (panel session_id) (adds v) (λ p. has_key v p.adding_ids) (adding_acts v)
          (adding_resumes v) r refl,
      ap (total (adds v)) e,
    );
  }

  pub falls : (t : Task) (a : Answer t) (p : Panel) → total (λ _. 1) (resume t a p).1 < 1
  unfolding resume
  falls (search query turn) a p = omega arith
  falls (add request w) a p = omega arith

  -- However the panel has come to be where it is: without a new event no more calls can settle
  -- than are pending, whatever they are answered by and in whatever order; once none is pending,
  -- neither the form nor a page button nor an add button is marked as loading; and if every call
  -- can be answered, that is reached.
  pub panel-ComesToRest :
      (s : System (panel session_id))
      → Reach (panel session_id) (record { state = fresh; pending = [] }) s
      → ComesToRest (panel session_id) (λ _. 1) IsIdle s
  panel-ComesToRest s r =
      Reach-ComesToRest (panel session_id) (λ _. 1) IsIdle falls
        (record { state = fresh; pending = [] }) s (λ u q e. at_rest q e) r
