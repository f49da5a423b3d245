-- ===== src/Web/Admin/Authorization.antt =====
-- web/src/routes/admin/+page.svelte: the calls that need the administrator's token.
use radio_jockey.Base.{
  true, Option, [], Text, ◌≡◌, refl, arith, ok, thrown, is_nonempty, All, Bool-cases, inl, inr,
}
use radio_jockey.Bot.Slug.{or_text}
use radio_jockey.Web.Machine.{System, Reach}
use radio_jockey.Web.Machine.Runs.{Reach-All}
use radio_jockey.Web.Admin.{
  Admin, Task, respond_nonce, load_both, delete_session, delete_archive, Answer, sessions_first,
  archives_first, Event, press_request_nonce, press_submit, press_logout, type_pass_key, press_stop,
  press_delete, act, resume, enabled, admin, opened, on_first, handle_request_nonce,
  handle_submit_pass_key, on_auth_token, handle_stop, handle_delete_archive, bearer,
}

-- A call that deletes has a bearer token, and not the empty one.
abbrev pub IsAuthorized : Task → Type 0
IsAuthorized (delete_session request authorization) =
    (token : Text) × (authorization ≡ bearer token) × (is_nonempty token ≡ true)
IsAuthorized (delete_archive request authorization) =
    (token : Text) × (authorization ≡ bearer token) × (is_nonempty token ≡ true)
IsAuthorized _ = Unit {0}

act-IsAuthorized : (e : Event) (s : Admin) → enabled s e ≡ true → All IsAuthorized (act e s).1
unfolding act handle_request_nonce handle_submit_pass_key handle_stop handle_delete_archive
act-IsAuthorized press_request_nonce s on = (tt, tt)
act-IsAuthorized press_submit s on = (tt, tt)
act-IsAuthorized press_logout s on = tt
act-IsAuthorized (type_pass_key v) s on = tt
act-IsAuthorized (press_stop id) s on = ((s.auth_token, refl, ground arith), tt)
act-IsAuthorized (press_delete id) s on = ((s.auth_token, refl, ground arith), tt)

resume-IsAuthorized : (t : Task) (a : Answer t) (s : Admin) → All IsAuthorized (resume t a s).1
unfolding resume on_auth_token on_first
resume-IsAuthorized (respond_nonce r) (ok res) s = (tt, tt)
resume-IsAuthorized (respond_nonce r) (thrown err) s = tt
resume-IsAuthorized (load_both origin) (sessions_first o) s = (tt, tt)
resume-IsAuthorized (load_both origin) (archives_first o) s = (tt, tt)
resume-IsAuthorized _ a s = tt

at_first : (stored : Option Text) → All IsAuthorized (opened stored).pending
at_first stored = elim (Bool-cases (is_nonempty (or_text stored []))) [
  | inl logged_in ↦ rw logged_in (tt, tt)
  | inr logged_out ↦ rw logged_out tt
]

-- However an administration page that was opened has come to be where it is, each of its pending
-- calls that stop a station or delete an archive carries a bearer token that is not empty.
pub Reach-IsAuthorized :
    {stored : Option Text} {u : System admin}
    → Reach admin (opened stored) u
    → All IsAuthorized u.pending
Reach-IsAuthorized {stored} r =
    Reach-All admin IsAuthorized act-IsAuthorized resume-IsAuthorized r (at_first stored)
