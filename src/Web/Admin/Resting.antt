-- ===== src/Web/Admin/Resting.antt =====
-- web/src/routes/admin/+page.svelte: how the waits of the page end.
use radio_jockey.Base.{
  ℕ, ◌≤◌, ◌<◌, Bool, true, false, not, ◌&&◌, Option, [], ◌∷◌, Text, ℤ, ◌≡◌, refl, sym, ap, arith,
  ok, thrown, ◌⊎◌, inl, inr, is_nonempty, Bool-cases,
}
use radio_jockey.Bot.Slug.{or_text}
use radio_jockey.Proto.Service.{Failure, connect_error, other_error, unauthenticated}
use radio_jockey.Web.Machine.{System, Reach, bit, total}
use radio_jockey.Web.Machine.Runs.{Reach-Counted, Reach-Watched}
use radio_jockey.Web.Machine.Settling.{ComesToRest, Reach-ComesToRest}
use radio_jockey.Web.Sets.{has_key, text_key, int_key}
use radio_jockey.Web.Admin.{
  Admin, Origin, at_mount, at_login, Task, request_nonce, respond_nonce, load_both, load_sessions,
  load_archives, delete_session, delete_archive, Answer, sessions_first, archives_first, Event,
  press_logout, act, resume, enabled, admin, opened, fresh, on_sessions, on_archives, on_loaded,
  on_first, handle_request_nonce, on_nonce, handle_submit_pass_key, on_auth_token, logout,
  handle_auth_error, handle_stop, on_stopped, handle_delete_archive, on_deleted,
}
use radio_jockey.Web.Admin.Waiting.{
  Button, nonce_button, submit_button, stop_button, delete_button, kind, is_login, is_waiting,
  waiting_acts, waiting_resumes,
}

-- Logged in, and nothing but `loading...` to see.
abbrev pub is_unloaded : Admin → Bool
is_unloaded s = is_nonempty s.auth_token && not s.loaded

loads : Task → ℕ
loads (load_both origin) = 1
loads (load_sessions origin) = 1
loads (load_archives origin) = 1
loads _ = 0

load_acts :
    (e : Event) (s : Admin)
    → enabled s e ≡ true
    → bit (is_unloaded (act e s).0) ≤ bit (is_unloaded s)
unfolding act handle_request_nonce handle_submit_pass_key logout handle_stop handle_delete_archive
load_acts press_logout s on = omega arith
load_acts _ s on = omega arith

on_loaded_lem : (origin : Origin) (s : Admin) → bit (is_unloaded (on_loaded origin s)) ≡ 0
unfolding on_loaded
on_loaded_lem at_mount s = ground arith
on_loaded_lem at_login s = ground arith

handle_auth_error_lem :
    (err : Failure) (s : Admin) → bit (is_unloaded (handle_auth_error err s)) ≤ bit (is_unloaded s)
unfolding handle_auth_error logout
handle_auth_error_lem (connect_error unauthenticated raw) s = omega arith
handle_auth_error_lem (connect_error _ raw) s = omega arith
handle_auth_error_lem (other_error message) s = omega arith

load_resumes :
    (t : Task) (a : Answer t) (s : Admin)
    → (bit (is_unloaded (resume t a s).0) ≤ total loads (resume t a s).1)
      ⊎ ((loads t ≡ 0) × (bit (is_unloaded (resume t a s).0) ≤ bit (is_unloaded s)))
unfolding resume loads on_nonce on_auth_token on_first on_stopped on_deleted
load_resumes request_nonce (ok res) s = inr (refl, omega arith)
load_resumes request_nonce (thrown err) s = inr (refl, omega arith)
load_resumes (respond_nonce r) (ok res) s = ground arith
load_resumes (respond_nonce r) (thrown err) s = inr (refl, omega arith)
load_resumes (load_both origin) (sessions_first o) s = ground arith
load_resumes (load_both origin) (archives_first o) s = ground arith
load_resumes (load_sessions origin) o s =
    inl (omega (arith, on_loaded_lem origin (on_sessions o s)))
load_resumes (load_archives origin) o s =
    inl (omega (arith, on_loaded_lem origin (on_archives o s)))
load_resumes (delete_session r token) (ok res) s = inr (refl, omega arith)
load_resumes (delete_session r token) (thrown err) s =
    inr (refl, omega (arith, handle_auth_error_lem err s))
load_resumes (delete_archive r token) (ok res) s = inr (refl, omega arith)
load_resumes (delete_archive r token) (thrown err) s =
    inr (refl, omega (arith, handle_auth_error_lem err s))

pub weight : Task → ℕ
weight (respond_nonce request) = 3
weight (load_both origin) = 2
weight _ = 1

falls : (t : Task) (a : Answer t) (s : Admin) → total weight (resume t a s).1 < weight t
unfolding resume weight on_auth_token on_first
falls request_nonce a s = omega arith
falls (respond_nonce r) (ok res) s = omega arith
falls (respond_nonce r) (thrown err) s = omega arith
falls (load_both origin) (sessions_first o) s = omega arith
falls (load_both origin) (archives_first o) s = omega arith
falls (load_sessions origin) a s = omega arith
falls (load_archives origin) a s = omega arith
falls (delete_session r token) a s = omega arith
falls (delete_archive r token) a s = omega arith

-- No button is marked as loading, and who is logged in sees the lists.
pub record IsIdle (s : Admin) : Type 0 where
  pub nonce : s.requesting_nonce ≡ false
  pub submit : s.submitting_pass_key ≡ false
  pub stop : (session_id : Text) → has_key session_id s.stopping_ids ≡ false
  pub delete : (id : ℤ) → has_key id s.deleting_archive_ids ≡ false
  pub loaded : is_nonempty s.auth_token ≡ true → s.loaded ≡ true

module _ (stored : Option Text) where
  none_marked : (b : Button) → bit (is_waiting b (fresh stored)) ≡ 0
  unfolding has_key
  none_marked nonce_button = refl
  none_marked _ = refl

  mount_unmarked :
      (b : Button) → total (kind b) (load_both at_mount ∷ []) ≡ bit (is_waiting b (fresh stored))
  unfolding kind is_login has_key
  mount_unmarked submit_button = refl
  mount_unmarked _ = refl

  counted_at_first :
      (b : Button) → bit (is_waiting b (fresh stored)) ≡ total (kind b) (opened stored).pending
  counted_at_first b = elim (Bool-cases (is_nonempty (or_text stored []))) [
    | inl logged_in ↦ rw logged_in (sym (mount_unmarked b))
    | inr logged_out ↦ rw logged_out (none_marked b)
  ]

  watched_at_first : bit (is_unloaded (fresh stored)) ≤ total loads (opened stored).pending
  unfolding loads
  watched_at_first = ground arith

  none_waits :
      {u : System admin}
      → Reach admin (opened stored) u
      → u.pending ≡ []
      → (b : Button) → is_waiting b u.state ≡ false
  none_waits {u} r e b = ground (
    arith,
    Reach-Counted admin (kind b) (is_waiting b) (waiting_acts b) (waiting_resumes b) r
        (counted_at_first b),
    ap (total (kind b)) e,
  )

  at_rest : {u : System admin} → Reach admin (opened stored) u → u.pending ≡ [] → IsIdle u.state
  at_rest {u} r e =
      let watched =
        Reach-Watched admin loads is_unloaded load_acts load_resumes r watched_at_first in
      record {
        nonce = none_waits r e nonce_button;
        submit = none_waits r e submit_button;
        stop = λ id. none_waits r e (stop_button id);
        delete = λ id. none_waits r e (delete_button id);
        loaded = λ logged_in. ground (arith, watched, ap (total loads) e);
      }

  -- However an administration page that was opened has come to be where it is: without a new event
  -- no more calls can settle than the pending calls weigh, whatever they are answered by and in
  -- whatever order, where the call that answers the nonce weighs three, the two lists together
  -- two, and any other call one; once none is pending, no button is marked as loading, and the
  -- lists are loaded if there is a token; and if every call can be answered, that is reached.
  pub admin-ComesToRest :
      (s : System admin) → Reach admin (opened stored) s → ComesToRest admin weight IsIdle s
  admin-ComesToRest s r =
      Reach-ComesToRest admin weight IsIdle falls (opened stored) s (λ u q e. at_rest q e) r
