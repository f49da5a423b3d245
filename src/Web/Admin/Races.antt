-- ===== src/Web/Admin/Races.antt =====
-- web/src/routes/admin/+page.svelte, `handleAuthError`: an answer to a call with an old token.
use radio_jockey.Base.{
  true, none, some, [], ◌∷◌, Text, text_eq_iff, ◌≡◌, refl, arith, ok, thrown, is_nonempty,
}
use radio_jockey.Proto.Messages.{SessionInfo}
use radio_jockey.Proto.Service.{connect_error, unauthenticated}
use radio_jockey.Web.Machine.{System, Reach, here, step, happen, settle}
use radio_jockey.Web.Sets.{has_key, text_key}
use radio_jockey.Web.Admin.{
  at_mount, at_login, respond_nonce, load_both, load_archives, delete_session, sessions_first,
  press_submit, press_logout, press_stop, act, resume, admin, opened, on_sessions, on_archives,
  on_loaded, on_first, handle_submit_pass_key, on_auth_token, logout, handle_auth_error,
  handle_stop, on_stopped, bearer,
}

-- Logged in by the new token, while a call with the old one waits.
abbrev pub WaitsWith : (session_id old new : Text) → System admin → Type 0
WaitsWith session_id old new u =
    (u.state.auth_token ≡ new)
    × (u.state.stored ≡ some new)
    × (u.pending
        ≡ load_both at_login
          ∷ delete_session (record { session_id = session_id }) (bearer old)
          ∷ [])

-- For an old token that is not empty, the administration page can come to be logged in by a new
-- token while a stop with the old one is pending; when that is answered as unauthenticated, the
-- new token is removed from the page and from the storage.
pub stale_logout :
    (old new raw : Text) (station : SessionInfo)
    → is_nonempty old ≡ true
    → (u : System admin) × Reach admin (opened (some old)) u
      × WaitsWith station.session_id old new u
      × (let t = delete_session (record { session_id = station.session_id }) (bearer old) in
          ((resume t (thrown (connect_error unauthenticated raw)) u.state).0.auth_token ≡ [])
          × ((resume t (thrown (connect_error unauthenticated raw)) u.state).0.stored ≡ none))
unfolding act resume on_first on_sessions on_archives on_loaded handle_stop logout
    handle_submit_pass_key on_auth_token on_stopped handle_auth_error has_key
stale_logout [] new raw station ne = absurd (ground arith)
stale_logout (c ∷ t) new raw station ne =
    let id = station.session_id in
    let start : System admin = opened (some (c ∷ t)) in
    let begun : Reach admin start start = here in
    let listed = step begun (
      settle [] [] (load_both at_mount) (sessions_first (ok (record { sessions = station ∷ [] })))
        refl) in
    let loaded =
      step listed (settle [] [] (load_archives at_mount) (ok (record { archives = [] })) refl) in
    let stopping = step loaded (happen (press_stop id) (ground (arith, text_eq_iff id id))) in
    let left = step stopping (happen press_logout refl) in
    let asked = step left (happen press_submit refl) in
    let back = step asked (
      settle [] (delete_session (record { session_id = id }) (bearer (c ∷ t)) ∷ [])
        (respond_nonce (record { pass_key = [] })) (ok (record { auth_token = new })) refl) in
    (_, back, (refl, refl, refl), (refl, refl))
