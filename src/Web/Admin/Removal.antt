-- ===== src/Web/Admin/Removal.antt =====
-- web/src/routes/admin/+page.svelte, `handleStop` and `handleDeleteArchive` when the server has done
-- it: what the page lists then.
use radio_jockey.Base.{
  false, List, [], ◌∷◌, Text, text_eq, text_eq_iff, ℤ, if◌then◌else◌, ◌≡◌, arith,
}
use radio_jockey.Proto.Messages.{SessionInfo, SessionArchiveInfo}
use radio_jockey.Web.Sets.{text_key, int_key, same_ℤ, same_ℤ_iff}
use radio_jockey.Web.Admin.{without_session, without_archive, lists_session, lists_archive}

pub lists_session-without_session :
    (id other : Text) (xs : List SessionInfo)
    → lists_session other (without_session id xs)
      ≡ (if text_eq id other then false else lists_session other xs)
unfolding without_session
lists_session-without_session id other [] = ground arith
lists_session-without_session id other (x ∷ xs) = ground (
  arith,
  lists_session-without_session id other xs,
  text_eq_iff id other,
  text_eq_iff x.session_id id,
  text_eq_iff x.session_id other,
)

pub lists_archive-without_archive :
    (id other : ℤ) (xs : List SessionArchiveInfo)
    → lists_archive other (without_archive id xs)
      ≡ (if same_ℤ id other then false else lists_archive other xs)
unfolding without_archive
lists_archive-without_archive id other [] = ground arith
lists_archive-without_archive id other (x ∷ xs) = ground (
  arith,
  lists_archive-without_archive id other xs,
  same_ℤ_iff id other,
  same_ℤ_iff x.id id,
  same_ℤ_iff x.id other,
)
