-- ===== src/Bot/Tokens.antt =====
-- discord-jockey/src/connect/auth/auth.ts: when a token is asked for, and where it is kept.
use radio_jockey.Base.{
  sym, Option, none, Bool-cases, true, [], ◌∷◌, is_nonempty, false, some, Text, Outcome, ok, thrown,
  ◌≡◌, refl, ap, ◌∙◌, arith, if◌then◌else◌, Option-cases, inl, inr, lookup, lookup-insert_self,
}
use radio_jockey.Proto.Messages.{RequestNonceRequest, RespondNonceResponse}
use radio_jockey.Proto.Service.{Failure, connect_error, other_error}
use radio_jockey.Bot.Sessions.{Session, Sessions, get_auth_token, set_auth_token, token_of}
use radio_jockey.Bot.Effects.{
  Env, World, M, ◌>>=◌, after-eq-ok, handle, with_connect_error, call, throw, failure_of,
}
use radio_jockey.Bot.Auth.{
  is_unauthenticated, truthy, sign_nonce, keep_token, acquire_auth_token, with_fresh, with_cached,
  with_auth,
}

-- Not a rejection of the token.
abbrev pub IsSettled : {A : Type 0} → Outcome Failure A → Type 0
IsSettled (ok a) = Unit {0}
IsSettled (thrown (connect_error code raw)) = is_unauthenticated code ≡ false
IsSettled (thrown (other_error message)) = Unit {0}

ok-injective : {A : Type 0} {a b : A} → ◌≡◌ {A = Outcome Failure A} (ok a) (ok b) → a ≡ b
ok-injective e = cc

module _ {S : Type 0} (env : Env S) {A : Type 0} (session_id : Text) (fn : Text → M S A) where
  settled_lem :
      (p : Outcome Failure A × World S)
      → IsSettled p.0
      → handle
          (λ err.
            if is_unauthenticated err.code
            then with_fresh env session_id fn
            else throw (failure_of err))
          p
        ≡ p
  settled_lem (ok a, w) h = refl
  settled_lem (thrown (connect_error code raw), w) h = rw h
  settled_lem (thrown (other_error message), w) h = refl

  cached_lem :
      (w : World S) (cached : Text)
      → truthy (get_auth_token session_id w.sessions) ≡ some cached
      → with_auth env session_id fn w ≡ with_cached env session_id fn (some cached) w
  unfolding with_auth
  cached_lem w cached h = ap (λ t. with_cached env session_id fn t w) h

  -- With a cached token that is not empty, the call is made with it, and unless it throws that it
  -- is unauthenticated its outcome stands: no nonce is asked for and nothing is called a second
  -- time.
  pub with_auth_settled :
      (w : World S) (cached : Text)
      → truthy (get_auth_token session_id w.sessions) ≡ some cached
      → IsSettled (fn cached w).0
      → with_auth env session_id fn w ≡ fn cached w
  unfolding with_connect_error
  with_auth_settled w cached h settled = cached_lem w cached h ∙ settled_lem (fn cached w) settled

module _ {S : Type 0} (env : Env S) (session_id : Text) where
  token_of_set :
      (token : Text) (sessions : Sessions) (session : Session)
      → lookup session_id (set_auth_token session_id token sessions) ≡ some session
      → session.auth_token ≡ some token
  unfolding set_auth_token
  token_of_set token sessions session found = elim (Option-cases (lookup session_id sessions)) [
    | inl absent ↦ absurd (ground (arith, found, absent))
    | inr (old, present) ↦ ground (
      arith,
      found,
      present,
      lookup-insert_self session_id (record old { auth_token = some token }) sessions,
    )
  ]

  kept_lem :
      (response : RespondNonceResponse) (v w' : World S) (token : Text) (session : Session)
      → keep_token env session_id response v ≡ (ok token, w')
      → lookup session_id w'.sessions ≡ some session
      → session.auth_token ≡ some token
  unfolding keep_token
  kept_lem response v w' token session e found =
      token_of_set response.auth_token v.sessions session
        (ap (λ r. lookup session_id r.1.sessions) e ∙ found)
      ∙ ap some (ok-injective (ap (λ r. r.0) e))

  -- When a token has been acquired and the table still holds the session, the session has that
  -- token.
  pub acquire_auth_token-kept :
      (w w' : World S) (token : Text) (session : Session)
      → acquire_auth_token env session_id w ≡ (ok token, w')
      → lookup session_id w'.sessions ≡ some session
      → session.auth_token ≡ some token
  unfolding acquire_auth_token
  acquire_auth_token-kept w w' token session e found =
      let respond : Text → M S Text = λ pass_key. (do
        response ← call env env.client.respond_nonce (record { pass_key = pass_key })
        keep_token env session_id response) in
      let (challenge, v, _, e₁) =
        after-eq-ok (call env env.client.request_nonce RequestNonceRequest.empty w)
          (λ challenge. (do pass_key ← sign_nonce env challenge.nonce; respond pass_key)) e in
      let (pass_key, v', _, e₂) = after-eq-ok (sign_nonce env challenge.nonce v) respond e₁ in
      let (response, v'', _, e₃) =
        after-eq-ok (call env env.client.respond_nonce (record { pass_key = pass_key }) v')
          (keep_token env session_id) e₂ in
      kept_lem response v'' w' token session e₃ found

truthy_lem : (token : Text) → is_nonempty token ≡ true → truthy (some token) ≡ some token
truthy_lem [] h = absurd (ground arith)
truthy_lem (c ∷ s) h = refl

module _ {S : Type 0} (env : Env S) {A : Type 0} (session_id : Text) (fn : Text → M S A) where
  -- When an auth token that is not empty has been acquired for a session and the table still holds
  -- the session, then from any world in which the session has that token in the table, a call that
  -- wants a token and that, made with that token, does not throw that it is unauthenticated comes
  -- to the outcome and the world of this one call, so that no nonce is asked for and nothing is
  -- called a second time.
  pub with_auth_remembered :
      (w v u : World S) (token : Text) (session : Session)
      → acquire_auth_token env session_id w ≡ (ok token, v)
      → lookup session_id v.sessions ≡ some session
      → is_nonempty token ≡ true
      → get_auth_token session_id u.sessions ≡ get_auth_token session_id v.sessions
      → IsSettled (fn token u).0
      → with_auth env session_id fn u ≡ fn token u
  unfolding get_auth_token
  with_auth_remembered w v u token session acquired found full same settled =
      let kept : get_auth_token session_id v.sessions ≡ some token =
        ap token_of found
        ∙ acquire_auth_token-kept env session_id w v token session acquired found in
      with_auth_settled env session_id fn u token (ap truthy (same ∙ kept) ∙ truthy_lem token full)
        settled

truthy_inj : (t : Option Text) (token : Text) → truthy t ≡ some token → t ≡ some token
truthy_inj none token h = absurd (ground arith)
truthy_inj (some []) token h = absurd (ground arith)
truthy_inj (some (c ∷ s)) token h = h

module _ {S : Type 0} (env : Env S) {A : Type 0} (session_id : Text) (fn : Text → M S A) where
  -- Where the outcome is that of a call with a token, and the session has no other token then.
  abbrev pub IsWithToken : A → World S → Type 0
  IsWithToken a w' =
      (token : Text) × (v : World S) × (fn token v ≡ (ok a, w'))
      × ((session : Session)
          → lookup session_id v.sessions ≡ some session
          → session.auth_token ≡ some token)

  fresh_lem :
      (w w' : World S) (a : A) → with_fresh env session_id fn w ≡ (ok a, w') → IsWithToken a w'
  fresh_lem w w' a e =
      let (token, v, acquired, called) = after-eq-ok (acquire_auth_token env session_id w) fn e in
      (
        token,
        v,
        called,
        λ session found. acquire_auth_token-kept env session_id w v token session acquired found,
      )

  by_call :
      (cached : Text) (w w' : World S) (a : A) (r : Outcome Failure A × World S)
      → fn cached w ≡ r
      → get_auth_token session_id w.sessions ≡ some cached
      → handle
          (λ err.
            if is_unauthenticated err.code
            then with_fresh env session_id fn
            else throw (failure_of err))
          r
        ≡ (ok a, w')
      → IsWithToken a w'
  unfolding get_auth_token
  by_call cached w w' a (ok b, v) called has e =
      (cached, w, called ∙ e, λ session found. ap token_of (sym found) ∙ has)
  by_call cached w w' a (thrown (connect_error code raw), v) called has e =
      elim (Bool-cases (is_unauthenticated code)) [
        | inl rejected ↦ fresh_lem v w' a (rw rejected at e)
        | inr other ↦ absurd (cc (rw other at e))
      ]
  by_call cached w w' a (thrown (other_error message), v) called has e = absurd (ground arith)

  by_token :
      (t : Option Text) (w w' : World S) (a : A)
      → truthy (get_auth_token session_id w.sessions) ≡ t
      → with_cached env session_id fn t w ≡ (ok a, w')
      → IsWithToken a w'
  unfolding with_connect_error
  by_token none w w' a h e = fresh_lem w w' a e
  by_token (some cached) w w' a h e =
      by_call cached w w' a (fn cached w) refl (truthy_inj _ cached h) e

  -- Whenever `withAuth` returns, whether it found a cached token, found none, or had the cached
  -- one rejected, its outcome and its world are those of a call with some token, made when the
  -- session of the guild, if the table had it, had just that token.
  pub with_auth_kept :
      (w w' : World S) (a : A) → with_auth env session_id fn w ≡ (ok a, w') → IsWithToken a w'
  unfolding with_auth
  with_auth_kept w w' a e = by_token _ w w' a refl e
