-- ===== src/Web/Admin/Storage.antt =====
-- web/src/routes/admin/+page.svelte: the token of the page and that of `localStorage`.
use radio_jockey.Base.{true, Option, [], Text, ◌≡◌, refl, sym, ok, thrown, Outcome}
use radio_jockey.Bot.Slug.{or_text}
use radio_jockey.Proto.Messages.{ListSessionsResponse, ListSessionArchivesResponse}
use radio_jockey.Proto.Service.{Failure, connect_error, other_error, unauthenticated}
use radio_jockey.Web.Machine.{System, Reach}
use radio_jockey.Web.Machine.Runs.{Reach-keeps}
use radio_jockey.Web.Admin.{
  Admin, Origin, at_mount, at_login, Task, request_nonce, respond_nonce, load_both, load_sessions,
  load_archives, delete_session, delete_archive, Answer, sessions_first, archives_first, Event,
  press_logout, act, resume, enabled, admin, opened, on_sessions, on_archives, on_loaded, on_first,
  handle_request_nonce, on_nonce, handle_submit_pass_key, on_auth_token, logout, handle_auth_error,
  handle_stop, on_stopped, handle_delete_archive, on_deleted,
}

-- `localStorage.getItem(TOKEN_KEY) ?? ''` is the token of the page.
abbrev pub IsStored : Admin → Type 0
IsStored s = s.auth_token ≡ or_text s.stored []

on_sessions-IsStored :
    (o : Outcome Failure ListSessionsResponse) (s : Admin) → IsStored s → IsStored (on_sessions o s)
unfolding on_sessions
on_sessions-IsStored (ok res) s h = h
on_sessions-IsStored (thrown err) s h = h

on_archives-IsStored :
    (o : Outcome Failure ListSessionArchivesResponse) (s : Admin)
    → IsStored s
    → IsStored (on_archives o s)
unfolding on_archives
on_archives-IsStored (ok res) s h = h
on_archives-IsStored (thrown err) s h = h

on_loaded-IsStored : (origin : Origin) (s : Admin) → IsStored s → IsStored (on_loaded origin s)
unfolding on_loaded
on_loaded-IsStored at_mount s h = h
on_loaded-IsStored at_login s h = h

handle_auth_error-IsStored :
    (err : Failure) (s : Admin) → IsStored s → IsStored (handle_auth_error err s)
unfolding handle_auth_error logout
handle_auth_error-IsStored (connect_error unauthenticated raw) s h = refl
handle_auth_error-IsStored (connect_error _ raw) s h = h
handle_auth_error-IsStored (other_error message) s h = h

act-IsStored : (e : Event) (s : Admin) → enabled s e ≡ true → IsStored s → IsStored (act e s).0
unfolding act handle_request_nonce handle_submit_pass_key logout handle_stop handle_delete_archive
act-IsStored press_logout s on h = refl
act-IsStored _ s on h = h

resume-IsStored : (t : Task) (a : Answer t) (s : Admin) → IsStored s → IsStored (resume t a s).0
unfolding resume on_nonce on_auth_token on_first on_stopped on_deleted
resume-IsStored request_nonce (ok res) s h = h
resume-IsStored request_nonce (thrown err) s h = h
resume-IsStored (respond_nonce r) (ok res) s h = refl
resume-IsStored (respond_nonce r) (thrown err) s h = h
resume-IsStored (load_both origin) (sessions_first o) s h = on_sessions-IsStored o s h
resume-IsStored (load_both origin) (archives_first o) s h = on_archives-IsStored o s h
resume-IsStored (load_sessions origin) o s h =
    on_loaded-IsStored origin (on_sessions o s) (on_sessions-IsStored o s h)
resume-IsStored (load_archives origin) o s h =
    on_loaded-IsStored origin (on_archives o s) (on_archives-IsStored o s h)
resume-IsStored (delete_session r token) (ok res) s h = h
resume-IsStored (delete_session r token) (thrown err) s h = handle_auth_error-IsStored err s h
resume-IsStored (delete_archive r token) (ok res) s h = h
resume-IsStored (delete_archive r token) (thrown err) s h = handle_auth_error-IsStored err s h

-- However an administration page that was opened with any item in the storage has come to be where
-- it is, the page that is opened with the item that the storage holds then has the token of that
-- page.
pub reopened_token :
    {stored : Option Text} {u : System admin}
    → Reach admin (opened stored) u
    → (opened u.state.stored).state.auth_token ≡ u.state.auth_token
reopened_token r = sym (Reach-keeps admin IsStored act-IsStored resume-IsStored r refl)
