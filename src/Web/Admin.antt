-- ===== src/Web/Admin.antt =====
-- web/src/routes/admin/+page.svelte: the page of the administrator, with `localStorage` under
-- `TOKEN_KEY`. What `console.error` prints is left out.
pub mod Storage
pub mod Waiting
pub mod Resting
pub mod Removal
pub mod Races
pub mod Authorization
use radio_jockey.Base.{
  Bool, true, false, not, ◌&&◌, ◌||◌, Option, none, some, List, [], ◌∷◌, ◌++◌, Text, text, text_eq,
  ℤ, if◌then◌else◌, is_nonempty, Outcome, ok, thrown,
}
use radio_jockey.Bot.Slug.{or_text}
use radio_jockey.Proto.Messages.{
  SessionInfo, SessionArchiveInfo, RequestNonceResponse, RespondNonceRequest, RespondNonceResponse,
  ListSessionsResponse, ListSessionArchivesResponse, DeleteSessionAuthRequest,
  DeleteSessionAuthResponse, DeleteSessionArchiveRequest, DeleteSessionArchiveResponse,
}
use radio_jockey.Proto.Service.{Failure, connect_error, other_error, unauthenticated}
use radio_jockey.Web.Errors.{friendly_error}
use radio_jockey.Web.Machine.{Machine, System}
use radio_jockey.Web.Sets.{has_key, add_key, delete_key, text_key, int_key, same_ℤ}

-- `stored` is the item of `localStorage`.
pub record Admin : Type 0 where
  pub auth_token : Text
  pub stored : Option Text
  pub nonce : Text
  pub pass_key : Text
  pub sessions : List SessionInfo
  pub archives : List SessionArchiveInfo
  pub error : Text
  pub requesting_nonce : Bool
  pub submitting_pass_key : Bool
  pub stopping_ids : List Text
  pub deleting_archive_ids : List ℤ
  pub loaded : Bool

-- Who waits for `loadAll`.
pub data Origin : Type 0 where
  at_mount at_login : Origin

-- `load_both` is `Promise.all` before either of its two calls has settled; then one is left.
pub data Task : Type 0 where
  request_nonce : Task
  respond_nonce : RespondNonceRequest → Task
  load_both load_sessions load_archives : Origin → Task
  delete_session : DeleteSessionAuthRequest → (authorization : Text) → Task
  delete_archive : DeleteSessionArchiveRequest → (authorization : Text) → Task

pub data First : Type 0 where
  sessions_first : Outcome Failure ListSessionsResponse → First
  archives_first : Outcome Failure ListSessionArchivesResponse → First

abbrev pub Answer : Task → Type 0
Answer request_nonce = Outcome Failure RequestNonceResponse
Answer (respond_nonce request) = Outcome Failure RespondNonceResponse
Answer (load_both origin) = First
Answer (load_sessions origin) = Outcome Failure ListSessionsResponse
Answer (load_archives origin) = Outcome Failure ListSessionArchivesResponse
Answer (delete_session request authorization) = Outcome Failure DeleteSessionAuthResponse
Answer (delete_archive request authorization) = Outcome Failure DeleteSessionArchiveResponse

pub data Event : Type 0 where
  press_request_nonce press_submit press_logout : Event
  type_pass_key : Text → Event
  press_stop : (session_id : Text) → Event
  press_delete : (id : ℤ) → Event

abbrev pub fail : Failure → Admin → Admin
fail err s = record s { error = (friendly_error err).0 }

-- `loadSessions` and `loadArchives`, after their calls.
unfoldable pub on_sessions : Outcome Failure ListSessionsResponse → Admin → Admin
on_sessions (ok res) s = record s { sessions = res.sessions }
on_sessions (thrown err) s = fail err s

unfoldable pub on_archives : Outcome Failure ListSessionArchivesResponse → Admin → Admin
on_archives (ok res) s = record s { archives = res.archives }
on_archives (thrown err) s = fail err s

-- The end of `loadAll`, and of the handler that waits for it.
unfoldable pub on_loaded : Origin → Admin → Admin
on_loaded at_mount s = record s { loaded = true }
on_loaded at_login s = record s { loaded = true; submitting_pass_key = false }

unfoldable pub on_first : Origin → First → Admin → Admin × List Task
on_first origin (sessions_first res) s = (on_sessions res s, load_archives origin ∷ [])
on_first origin (archives_first res) s = (on_archives res s, load_sessions origin ∷ [])

unfoldable pub handle_request_nonce : Admin → Admin × List Task
handle_request_nonce s = (record s { error = []; requesting_nonce = true }, request_nonce ∷ [])

unfoldable pub on_nonce : Outcome Failure RequestNonceResponse → Admin → Admin
on_nonce (ok res) s = record s { nonce = res.nonce; requesting_nonce = false }
on_nonce (thrown err) s = record (fail err s) { requesting_nonce = false }

unfoldable pub handle_submit_pass_key : Admin → Admin × List Task
handle_submit_pass_key s = (
  record s { error = []; submitting_pass_key = true },
  respond_nonce (record { pass_key = s.pass_key }) ∷ [],
)

unfoldable pub on_auth_token : Outcome Failure RespondNonceResponse → Admin → Admin × List Task
on_auth_token (ok res) s = (
  record s { auth_token = res.auth_token; stored = some res.auth_token; nonce = []; pass_key = [] },
  load_both at_login ∷ [],
)
on_auth_token (thrown err) s = (record (fail err s) { submitting_pass_key = false }, [])

unfoldable pub logout : Admin → Admin
logout s = record s { auth_token = []; sessions = []; archives = []; stored = none }

unfoldable pub handle_auth_error : Failure → Admin → Admin
unfolding logout
handle_auth_error (connect_error unauthenticated raw) s = logout s
handle_auth_error (connect_error code raw) s = fail (connect_error code raw) s
handle_auth_error (other_error message) s = fail (other_error message) s

abbrev pub bearer : Text → Text
bearer token = text "Bearer " ++ token

unfoldable pub handle_stop : Text → Admin → Admin × List Task
handle_stop session_id s = (
  record s { error = []; stopping_ids = add_key session_id s.stopping_ids },
  delete_session (record { session_id = session_id }) (bearer s.auth_token) ∷ [],
)

unfoldable pub without_session : Text → List SessionInfo → List SessionInfo
without_session session_id [] = []
without_session session_id (x ∷ xs) =
    let rest = without_session session_id xs in
    if text_eq x.session_id session_id then rest else x ∷ rest

abbrev pub on_stop_answer : Text → Outcome Failure DeleteSessionAuthResponse → Admin → Admin
on_stop_answer session_id (ok res) s = record s { sessions = without_session session_id s.sessions }
on_stop_answer session_id (thrown err) s = handle_auth_error err s

unfoldable pub on_stopped : Text → Outcome Failure DeleteSessionAuthResponse → Admin → Admin
on_stopped session_id outcome s =
    let s' = on_stop_answer session_id outcome s in
    record s' { stopping_ids = delete_key session_id s'.stopping_ids }

unfoldable pub handle_delete_archive : ℤ → Admin → Admin × List Task
handle_delete_archive id s = (
  record s { error = []; deleting_archive_ids = add_key id s.deleting_archive_ids },
  delete_archive (record { id = id }) (bearer s.auth_token) ∷ [],
)

unfoldable pub without_archive : ℤ → List SessionArchiveInfo → List SessionArchiveInfo
without_archive id [] = []
without_archive id (x ∷ xs) =
    let rest = without_archive id xs in if same_ℤ x.id id then rest else x ∷ rest

abbrev pub on_delete_answer : ℤ → Outcome Failure DeleteSessionArchiveResponse → Admin → Admin
on_delete_answer id (ok res) s = record s { archives = without_archive id s.archives }
on_delete_answer id (thrown err) s = handle_auth_error err s

unfoldable pub on_deleted : ℤ → Outcome Failure DeleteSessionArchiveResponse → Admin → Admin
on_deleted id outcome s =
    let s' = on_delete_answer id outcome s in
    record s' { deleting_archive_ids = delete_key id s'.deleting_archive_ids }

unfoldable pub act : Event → Admin → Admin × List Task
act press_request_nonce s = handle_request_nonce s
act press_submit s = handle_submit_pass_key s
act press_logout s = (logout s, [])
act (type_pass_key value) s = (record s { pass_key = value }, [])
act (press_stop session_id) s = handle_stop session_id s
act (press_delete id) s = handle_delete_archive id s

unfoldable pub resume : (t : Task) → Answer t → Admin → Admin × List Task
resume request_nonce outcome s = (on_nonce outcome s, [])
resume (respond_nonce request) outcome s = on_auth_token outcome s
resume (load_both origin) first s = on_first origin first s
resume (load_sessions origin) outcome s = (on_loaded origin (on_sessions outcome s), [])
resume (load_archives origin) outcome s = (on_loaded origin (on_archives outcome s), [])
resume (delete_session request authorization) outcome s =
    (on_stopped request.session_id outcome s, [])
resume (delete_archive request authorization) outcome s = (on_deleted request.id outcome s, [])

abbrev pub lists_session : Text → List SessionInfo → Bool
lists_session session_id [] = false
lists_session session_id (x ∷ xs) = text_eq x.session_id session_id || lists_session session_id xs

abbrev pub lists_archive : ℤ → List SessionArchiveInfo → Bool
lists_archive id [] = false
lists_archive id (x ∷ xs) = same_ℤ x.id id || lists_archive id xs

-- The markup's conditions.
abbrev pub enabled : Admin → Event → Bool
enabled s press_request_nonce = not (is_nonempty s.auth_token) && not s.requesting_nonce
enabled s press_submit = not (is_nonempty s.auth_token) && not s.submitting_pass_key
enabled s (type_pass_key value) = not (is_nonempty s.auth_token) && not s.submitting_pass_key
enabled s press_logout = is_nonempty s.auth_token
enabled s (press_stop session_id) =
    is_nonempty s.auth_token
    && s.loaded
    && lists_session session_id s.sessions
    && not (has_key session_id s.stopping_ids)
enabled s (press_delete id) =
    is_nonempty s.auth_token
    && s.loaded
    && lists_archive id s.archives
    && not (has_key id s.deleting_archive_ids)

abbrev pub admin : Machine
admin = record {
  State = Admin;
  Event = Event;
  Task = Task;
  Answer = Answer;
  enabled = enabled;
  act = act;
  resume = resume;
}

abbrev pub fresh : (stored : Option Text) → Admin
fresh stored = record {
  auth_token = or_text stored [];
  stored = stored;
  nonce = [];
  pass_key = [];
  sessions = [];
  archives = [];
  error = [];
  requesting_nonce = false;
  submitting_pass_key = false;
  stopping_ids = [];
  deleting_archive_ids = [];
  loaded = false;
}

-- `onMount`, with what `localStorage` holds.
abbrev pub opened : (stored : Option Text) → System admin
opened stored = record {
  state = fresh stored;
  pending = if is_nonempty (or_text stored []) then load_both at_mount ∷ [] else [];
}
