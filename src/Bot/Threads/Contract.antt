-- ===== src/Bot/Threads/Contract.antt =====
-- discord-jockey/src: what a handler may do, and when, whatever its calls come to.
pub mod Steps
pub mod Commands
pub mod Playing
pub mod Dispatch
use radio_jockey.Base.{
  ℕ, ◌-◌, ◌≤◌, Bool, true, false, Option, none, some, Text, ◌≡◌, refl, Outcome, ok, thrown,
}
use radio_jockey.Proto.Methods.{Method, Request}
use radio_jockey.Proto.Service.{Failure, connect_error, other_error}
use radio_jockey.Bot.Effects.{ConnectError}
use radio_jockey.Bot.Playback.{Playback}
use radio_jockey.Bot.Streams.{HasOneStream}
use radio_jockey.Bot.Threads.{
  Op, Answer, Thread, pure, throw, doing, call, call_authorized, reply, follow_up, await_ready,
  info, error, sign_nonce, get_auth_token, set_auth_token, has_session, destroy_session,
  join_channel, destroy_connection, begin_stream, is_awaited, perform, of_outcome, attempt,
  with_connect_error, ◌>>=◌,
}

-- The session that a request names.
abbrev pub named_by : (method : Method) → Request method → Option Text
named_by Method.create_session r = some r.session_id
named_by Method.get_session r = some r.session_id
named_by Method.delete_session_auth r = some r.session_id
named_by Method.add_track r = some r.session_id
named_by Method.remove_track r = some r.session_id
named_by Method.skip_track r = some r.session_id
named_by Method.list_queue r = some r.session_id
named_by _ r = none

abbrev pub IsWithin : Text → Option Text → Type 0
IsWithin id none = Unit
IsWithin id (some other) = other ≡ id

-- An operation is on no session, or on this one.
abbrev pub IsOn : Text → Op → Type 0
IsOn id (call method request) = IsWithin id (named_by method request)
IsOn id (call_authorized method request _) = IsWithin id (named_by method request)
IsOn id (get_auth_token session_id) = session_id ≡ id
IsOn id (set_auth_token session_id _) = session_id ≡ id
IsOn id (has_session session_id) = session_id ≡ id
IsOn id (destroy_session session_id) = session_id ≡ id
IsOn id (begin_stream session_id _ _) = session_id ≡ id
IsOn id _ = Unit

-- An interaction is replied to once, and followed up after that.
abbrev pub IsTimely : (replied : Bool) → Op → Type 0
IsTimely replied (reply _) = replied ≡ false
IsTimely replied (follow_up _) = replied ≡ true
IsTimely replied _ = Unit

abbrev pub replied_after : Bool → Op → Bool
replied_after replied (reply _) = true
replied_after replied _ = replied

-- A wait wants one that is left.
abbrev pub HasLeft : (awaited : Bool) → ℕ → Type 0
HasLeft true left = 1 ≤ left
HasLeft false left = Unit

abbrev pub left_after : (awaited : Bool) → ℕ → ℕ
left_after true left = left - 1
left_after false left = left

-- What an operation may come to: it does not throw, or no ConnectError, or anything.
abbrev pub IsReturned : {A : Type 0} → Outcome Failure A → Type 0
IsReturned (ok _) = Unit
IsReturned (thrown _) = ⊥

abbrev pub IsOwn : {A : Type 0} → Outcome Failure A → Type 0
IsOwn (ok _) = Unit
IsOwn (thrown (connect_error _ _)) = ⊥
IsOwn (thrown (other_error _)) = Unit

-- A playback that has just been started.
pub record IsFresh (id : Text) (p : Playback) : Type 0 where
  pub named : p.session_id ≡ id
  pub running : p.stopped ≡ false
  pub streams : HasOneStream p

abbrev pub IsStarted : Text → Outcome Failure Playback → Type 0
IsStarted id (ok p) = IsFresh id p
IsStarted id (thrown _) = ⊥

abbrev pub Possible : (o : Op) → Outcome Failure (Answer o) → Type 0
Possible (call _ _) r = Unit
Possible (call_authorized _ _ _) r = Unit
Possible (sign_nonce _) r = Unit
Possible (reply _) r = IsOwn r
Possible (follow_up _) r = IsOwn r
Possible (await_ready _) r = IsOwn r
Possible (destroy_session _) r = IsOwn r
Possible (destroy_connection _) r = IsOwn r
Possible (info _ _) r = IsReturned r
Possible (error _ _) r = IsReturned r
Possible (get_auth_token _) r = IsReturned r
Possible (set_auth_token _ _) r = IsReturned r
Possible (has_session _) r = IsReturned r
Possible (join_channel _) r = IsReturned r
Possible (begin_stream session_id _ _) r = IsStarted session_id r

-- What holds of a handler that has come to its end, with `left` waits unused.
abbrev pub Post : Type 0 → Type 1
Post A = (replied : Bool) (left : ℕ) → Outcome Failure A → Type 0

-- All that a handler does from some point on, where the interaction has been replied to or not and
-- `left` waits are left, is on the session, timely and within the waits, and it ends as it should.
module _ (id : Text) where
  unfoldable pub Follows : {A : Type 0} → Bool → ℕ → Thread A → Post A → Type 0
  Follows replied left (pure a) Q = Q replied left (ok a)
  Follows replied left (throw e) Q = Q replied left (thrown e)
  Follows replied left (doing o k) Q =
      IsOn id o
      × IsTimely replied o
      × HasLeft (is_awaited o) left
      × ((r : Outcome Failure (Answer o))
          → Possible o r
          → Follows (replied_after replied o) (left_after (is_awaited o) left) (k r) Q)

  pub record Obeys {A : Type 0} (replied : Bool) (left : ℕ) (p : Thread A) (Q : Post A)
      : Type 0 where
    pub follows : Follows replied left p Q

  abbrev pub Bound : {A B : Type 0} → (A → Thread B) → Post B → Post A
  Bound f Q replied left (ok a) = Obeys replied left (f a) Q
  Bound f Q replied left (thrown e) = Q replied left (thrown e)

  abbrev pub Caught : {A : Type 0} → (ConnectError → Thread A) → Post A → Post A
  Caught f Q replied left (ok a) = Q replied left (ok a)
  Caught f Q replied left (thrown (connect_error code raw)) =
      Obeys replied left (f (record { code = code; raw_message = raw })) Q
  Caught f Q replied left (thrown (other_error message)) =
      Q replied left (thrown (other_error message))

  bind-Follows :
      {A B : Type 0} (p : Thread A) (b : Bool) (n : ℕ) (f : A → Thread B) (Q : Post B)
      → Follows b n p (Bound f Q)
      → Follows b n (p >>= f) Q
  unfolding ◌>>=◌ Follows
  bind-Follows (pure a) b n f Q h = h.follows
  bind-Follows (throw e) b n f Q h = h
  bind-Follows (doing o k) b n f Q (on, timely, left, h) =
      (on, timely, left, λ r possible. bind-Follows (k r) _ _ f Q (h r possible))

  attempt-Follows :
      {A : Type 0} (p : Thread A) (b : Bool) (n : ℕ) (Q : Post (Outcome Failure A))
      → Follows b n p (λ b' n' r. Q b' n' (ok r))
      → Follows b n (attempt p) Q
  unfolding attempt Follows
  attempt-Follows (pure a) b n Q h = h
  attempt-Follows (throw e) b n Q h = h
  attempt-Follows (doing o k) b n Q (on, timely, left, h) =
      (on, timely, left, λ r possible. attempt-Follows (k r) _ _ Q (h r possible))

  with_connect_error-Follows :
      {A : Type 0} (p : Thread A) (b : Bool) (n : ℕ) (f : ConnectError → Thread A) (Q : Post A)
      → Follows b n p (Caught f Q)
      → Follows b n (with_connect_error p f) Q
  unfolding with_connect_error Follows
  with_connect_error-Follows (pure a) b n f Q h = h
  with_connect_error-Follows (throw (connect_error code raw)) b n f Q h = h.follows
  with_connect_error-Follows (throw (other_error message)) b n f Q h = h
  with_connect_error-Follows (doing o k) b n f Q (on, timely, left, h) =
      (on, timely, left, λ r possible. with_connect_error-Follows (k r) _ _ f Q (h r possible))

  of_outcome-Follows :
      {A : Type 0} (r : Outcome Failure A) (b : Bool) (n : ℕ) (Q : Post A)
      → Q b n r
      → Follows b n (of_outcome r) Q
  unfolding Follows
  of_outcome-Follows (ok a) b n Q h = h
  of_outcome-Follows (thrown e) b n Q h = h

  weaken-Follows :
      {A : Type 0} (p : Thread A) (b : Bool) (n : ℕ) (Q R : Post A)
      → ((b' : Bool) (n' : ℕ) (r : Outcome Failure A) → Q b' n' r → R b' n' r)
      → Follows b n p Q
      → Follows b n p R
  unfolding Follows
  weaken-Follows (pure a) b n Q R k h = k b n (ok a) h
  weaken-Follows (throw e) b n Q R k h = k b n (thrown e) h
  weaken-Follows (doing o f) b n Q R k (on, timely, left, h) =
      (on, timely, left, λ r possible. weaken-Follows (f r) _ _ Q R k (h r possible))

  module _ {b : Bool} {n : ℕ} where
    pub weaken-Obeys :
        {A : Type 0} {p : Thread A} {Q R : Post A}
        → Obeys b n p Q
        → ((b' : Bool) (n' : ℕ) (r : Outcome Failure A) → Q b' n' r → R b' n' r)
        → Obeys b n p R
    weaken-Obeys h k = record { follows = weaken-Follows _ b n _ _ k h.follows }

    pub pure-Obeys : {A : Type 0} {a : A} {Q : Post A} → Q b n (ok a) → Obeys b n (pure a) Q
    unfolding Follows
    pure-Obeys h = record { follows = h }

    pub throw-Obeys :
        {A : Type 0} {e : Failure} {Q : Post A} → Q b n (thrown e) → Obeys b n (throw e) Q
    unfolding Follows
    throw-Obeys h = record { follows = h }

    pub bind-Obeys :
        {A B : Type 0} {p : Thread A} {f : A → Thread B} {Q : Post B}
        → Obeys b n p (Bound f Q)
        → Obeys b n (p >>= f) Q
    bind-Obeys h = record { follows = bind-Follows _ b n _ _ h.follows }

    pub attempt-Obeys :
        {A : Type 0} {p : Thread A} {Q : Post (Outcome Failure A)}
        → Obeys b n p (λ b' n' r. Q b' n' (ok r))
        → Obeys b n (attempt p) Q
    attempt-Obeys h = record { follows = attempt-Follows _ b n _ h.follows }

    pub with_connect_error-Obeys :
        {A : Type 0} {p : Thread A} (f : ConnectError → Thread A) {Q : Post A}
        → Obeys b n p (Caught f Q)
        → Obeys b n (with_connect_error p f) Q
    with_connect_error-Obeys f h = record {
      follows = with_connect_error-Follows _ b n f _ h.follows;
    }

    pub perform-Obeys :
        (o : Op) {Q : Post (Answer o)}
        → IsOn id o
        → IsTimely b o
        → HasLeft (is_awaited o) n
        → ((r : Outcome Failure (Answer o))
            → Possible o r
            → Q (replied_after b o) (left_after (is_awaited o) n) r)
        → Obeys b n (perform o) Q
    unfolding perform Follows
    perform-Obeys o {Q} on timely left h = record {
      follows = (on, timely, left, λ r possible. of_outcome-Follows r _ _ Q (h r possible));
    }
