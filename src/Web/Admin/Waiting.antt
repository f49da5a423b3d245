-- ===== src/Web/Admin/Waiting.antt =====
-- web/src/routes/admin/+page.svelte: the buttons that wait, and how the waits end.
use radio_jockey.Base.{
  ℕ, ◌+◌, ◌≤◌, Bool, true, Text, text_eq, text_eq_iff, ℤ, ◌≡◌, refl, ap, arith, Outcome, ok, thrown,
}
use radio_jockey.Proto.Messages.{
  RespondNonceRequest, DeleteSessionAuthRequest, DeleteSessionArchiveRequest,
  DeleteSessionAuthResponse, DeleteSessionArchiveResponse, ListSessionsResponse,
  ListSessionArchivesResponse,
}
use radio_jockey.Proto.Service.{Failure, connect_error, other_error, unauthenticated}
use radio_jockey.Web.Machine.{bit, total}
use radio_jockey.Web.Sets.{
  has_key, delete_key, has_key-add_key, has_key-delete_key, text_key, int_key, same_ℤ, same_ℤ_iff,
}
use radio_jockey.Web.Admin.{
  Admin, Origin, at_mount, at_login, Task, request_nonce, respond_nonce, load_both, load_sessions,
  load_archives, delete_session, delete_archive, Answer, sessions_first, archives_first, Event,
  press_request_nonce, press_submit, press_stop, press_delete, act, resume, enabled, on_sessions,
  on_archives, on_loaded, on_first, handle_request_nonce, on_nonce, handle_submit_pass_key,
  on_auth_token, logout, handle_auth_error, handle_stop, on_stopped, on_stop_answer,
  handle_delete_archive, on_deleted, on_delete_answer,
}

-- A button of the page that waits.
pub data Button : Type 0 where
  nonce_button submit_button : Button
  stop_button : (session_id : Text) → Button
  delete_button : (id : ℤ) → Button

unfoldable pub is_login : Origin → ℕ
is_login at_mount = 0
is_login at_login = 1

-- The waits that a button shows.
unfoldable pub kind : Button → Task → ℕ
kind nonce_button request_nonce = 1
kind submit_button (respond_nonce request) = 1
kind submit_button (load_both origin) = is_login origin
kind submit_button (load_sessions origin) = is_login origin
kind submit_button (load_archives origin) = is_login origin
kind (stop_button id) (delete_session request authorization) = bit (text_eq request.session_id id)
kind (delete_button id) (delete_archive request authorization) = bit (same_ℤ request.id id)
kind _ _ = 0

abbrev pub is_waiting : Button → Admin → Bool
is_waiting nonce_button s = s.requesting_nonce
is_waiting submit_button s = s.submitting_pass_key
is_waiting (stop_button id) s = has_key id s.stopping_ids
is_waiting (delete_button id) s = has_key id s.deleting_archive_ids

pub waiting_acts :
    (b : Button) (e : Event) (s : Admin)
    → enabled s e ≡ true
    → bit (is_waiting b (act e s).0) ≡ bit (is_waiting b s) + total (kind b) (act e s).1
unfolding act handle_request_nonce handle_submit_pass_key logout handle_stop handle_delete_archive
    kind
waiting_acts nonce_button press_request_nonce s on = ground arith
waiting_acts submit_button press_submit s on = ground arith
waiting_acts (stop_button i) (press_stop j) s on =
    ground (arith, text_eq_iff j i, has_key-add_key j i s.stopping_ids)
waiting_acts (delete_button i) (press_delete j) s on =
    ground (arith, same_ℤ_iff j i, has_key-add_key j i s.deleting_archive_ids)
waiting_acts nonce_button _ s on = omega arith
waiting_acts submit_button _ s on = omega arith
waiting_acts (stop_button i) _ s on = omega arith
waiting_acts (delete_button i) _ s on = omega arith

-- What is left to do before the end of a handler moves no button.
on_sessions_waiting :
    (b : Button) (o : Outcome Failure ListSessionsResponse) (s : Admin)
    → is_waiting b (on_sessions o s) ≡ is_waiting b s
unfolding on_sessions
on_sessions_waiting (stop_button i) (ok res) s = refl
on_sessions_waiting (stop_button i) (thrown err) s = refl
on_sessions_waiting _ (ok res) s = refl
on_sessions_waiting _ (thrown err) s = refl

on_archives_waiting :
    (b : Button) (o : Outcome Failure ListSessionArchivesResponse) (s : Admin)
    → is_waiting b (on_archives o s) ≡ is_waiting b s
unfolding on_archives
on_archives_waiting (stop_button i) (ok res) s = refl
on_archives_waiting (stop_button i) (thrown err) s = refl
on_archives_waiting _ (ok res) s = refl
on_archives_waiting _ (thrown err) s = refl

handle_auth_error_waiting :
    (b : Button) (err : Failure) (s : Admin)
    → is_waiting b (handle_auth_error err s) ≡ is_waiting b s
unfolding handle_auth_error logout
handle_auth_error_waiting (stop_button i) (connect_error unauthenticated raw) s = refl
handle_auth_error_waiting (stop_button i) (connect_error _ raw) s = refl
handle_auth_error_waiting (stop_button i) (other_error message) s = refl
handle_auth_error_waiting _ (connect_error unauthenticated raw) s = refl
handle_auth_error_waiting _ (connect_error _ raw) s = refl
handle_auth_error_waiting _ (other_error message) s = refl

on_loaded_waiting :
    (b : Button) (origin : Origin) (s : Admin)
    → kind b (load_sessions origin) ≤ bit (is_waiting b s)
    → bit (is_waiting b (on_loaded origin s)) + kind b (load_sessions origin) ≡ bit (is_waiting b s)
unfolding on_loaded kind is_login
on_loaded_waiting submit_button at_mount s h = omega arith
on_loaded_waiting submit_button at_login s h = ground arith
on_loaded_waiting _ at_mount s h = omega arith
on_loaded_waiting _ at_login s h = omega arith

loads_alike :
    (b : Button) (origin : Origin)
    → (kind b (load_archives origin) ≡ kind b (load_sessions origin))
      × (kind b (load_both origin) ≡ kind b (load_sessions origin))
unfolding kind
loads_alike submit_button origin = (refl, refl)
loads_alike _ origin = (refl, refl)

on_stop_answer_waiting :
    (b : Button) (id : Text) (o : Outcome Failure DeleteSessionAuthResponse) (s : Admin)
    → is_waiting b (on_stop_answer id o s) ≡ is_waiting b s
on_stop_answer_waiting (stop_button i) id (ok res) s = refl
on_stop_answer_waiting _ id (ok res) s = refl
on_stop_answer_waiting b id (thrown err) s = handle_auth_error_waiting b err s

on_delete_answer_waiting :
    (b : Button) (id : ℤ) (o : Outcome Failure DeleteSessionArchiveResponse) (s : Admin)
    → is_waiting b (on_delete_answer id o s) ≡ is_waiting b s
on_delete_answer_waiting (stop_button i) id (ok res) s = refl
on_delete_answer_waiting _ id (ok res) s = refl
on_delete_answer_waiting b id (thrown err) s = handle_auth_error_waiting b err s

stop_done :
    (b : Button) (r : DeleteSessionAuthRequest) (token : Text) (s : Admin)
    → kind b (delete_session r token) ≤ bit (is_waiting b s)
    → bit (is_waiting b (record s { stopping_ids = delete_key r.session_id s.stopping_ids }))
        + kind b (delete_session r token)
      ≡ bit (is_waiting b s)
unfolding kind
stop_done (stop_button i) r token s h =
    ground (arith, text_eq_iff r.session_id i, has_key-delete_key r.session_id i s.stopping_ids)
stop_done _ r token s h = omega arith

delete_done :
    (b : Button) (r : DeleteSessionArchiveRequest) (token : Text) (s : Admin)
    → kind b (delete_archive r token) ≤ bit (is_waiting b s)
    → bit (
          is_waiting b (record s { deleting_archive_ids = delete_key r.id s.deleting_archive_ids }))
        + kind b (delete_archive r token)
      ≡ bit (is_waiting b s)
unfolding kind
delete_done (delete_button i) r token s h =
    ground (arith, same_ℤ_iff r.id i, has_key-delete_key r.id i s.deleting_archive_ids)
delete_done _ r token s h = omega arith

nonce_waiting :
    (b : Button) (o : Answer request_nonce) (s : Admin)
    → kind b request_nonce ≤ bit (is_waiting b s)
    → bit (is_waiting b (on_nonce o s)) + kind b request_nonce ≡ bit (is_waiting b s)
unfolding on_nonce kind
nonce_waiting nonce_button (ok res) s h = ground arith
nonce_waiting nonce_button (thrown err) s h = ground arith
nonce_waiting _ (ok res) s h = omega arith
nonce_waiting _ (thrown err) s h = omega arith

auth_token_waiting :
    (b : Button) (r : RespondNonceRequest) (o : Answer (respond_nonce r)) (s : Admin)
    → kind b (respond_nonce r) ≤ bit (is_waiting b s)
    → bit (is_waiting b (on_auth_token o s).0) + kind b (respond_nonce r)
      ≡ bit (is_waiting b s) + total (kind b) (on_auth_token o s).1
unfolding on_auth_token kind is_login
auth_token_waiting submit_button r (ok res) s h = ground arith
auth_token_waiting submit_button r (thrown err) s h = ground arith
auth_token_waiting _ r (ok res) s h = omega arith
auth_token_waiting _ r (thrown err) s h = omega arith

pub waiting_resumes :
    (b : Button) (t : Task) (a : Answer t) (s : Admin)
    → kind b t ≤ bit (is_waiting b s)
    → bit (is_waiting b (resume t a s).0) + kind b t
      ≡ bit (is_waiting b s) + total (kind b) (resume t a s).1
unfolding resume on_first on_stopped on_deleted
waiting_resumes b request_nonce o s h = omega (arith, nonce_waiting b o s h)
waiting_resumes b (respond_nonce r) o s h = auth_token_waiting b r o s h
waiting_resumes b (load_both origin) (sessions_first o) s h =
    omega (arith, loads_alike b origin, ap bit (on_sessions_waiting b o s))
waiting_resumes b (load_both origin) (archives_first o) s h =
    omega (arith, loads_alike b origin, ap bit (on_archives_waiting b o s))
waiting_resumes b (load_sessions origin) o s h =
    omega (arith, on_loaded_waiting b origin (on_sessions o s), ap bit (on_sessions_waiting b o s))
waiting_resumes b (load_archives origin) o s h = omega (
  arith,
  loads_alike b origin,
  on_loaded_waiting b origin (on_archives o s),
  ap bit (on_archives_waiting b o s),
)
waiting_resumes b (delete_session r token) o s h = omega (
  arith,
  stop_done b r token (on_stop_answer r.session_id o s),
  ap bit (on_stop_answer_waiting b r.session_id o s),
)
waiting_resumes b (delete_archive r token) o s h = omega (
  arith,
  delete_done b r token (on_delete_answer r.id o s),
  ap bit (on_delete_answer_waiting b r.id o s),
)
