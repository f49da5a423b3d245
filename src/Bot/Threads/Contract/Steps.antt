-- ===== src/Bot/Threads/Contract/Steps.antt =====
-- discord-jockey/src: the contract of a step and what follows it.
use radio_jockey.Base.{ℕ, ◌-◌, ◌≤◌, Bool, true, false, Text, ◌≡◌, refl, Outcome, ok, thrown, arith}
use radio_jockey.Proto.Methods.{Method, Request, Response}
use radio_jockey.Proto.Service.{Failure, connect_error, other_error}
use radio_jockey.Bot.Effects.{ConnectError}
use radio_jockey.Bot.Logger.{Metadata}
use radio_jockey.Bot.Threads.{
  Thread, call, reply, info, error, destroy_session, perform, with_connect_error, ◌>>=◌, ◌>>◌,
}
use radio_jockey.Bot.Threads.Contract.{
  Obeys, Post, Bound, Caught, IsReturned, IsOwn, IsWithin, named_by, bind-Obeys, perform-Obeys,
  with_connect_error-Obeys,
}

module _ {id : Text} {b : Bool} {n : ℕ} where
  pub returned :
      {A B : Type 0} {f : A → Thread B} {Q : Post B} (r : Outcome Failure A)
      → IsReturned r
      → ((a : A) → Obeys id b n (f a) Q)
      → Bound id f Q b n r
  returned (ok a) possible h = h a
  returned (thrown e) possible h = absurd possible

  pub own :
      {A B : Type 0} {f : A → Thread B} {Q : Post B} (r : Outcome Failure A)
      → IsOwn r
      → ((a : A) → Obeys id b n (f a) Q)
      → ((message : Text) → Q b n (thrown (other_error message)))
      → Bound id f Q b n r
  own (ok a) possible h k = h a
  own (thrown (connect_error code raw)) possible h k = absurd possible
  own (thrown (other_error message)) possible h k = k message

  pub any :
      {A B : Type 0} {f : A → Thread B} {Q : Post B} (r : Outcome Failure A)
      → ((a : A) → Obeys id b n (f a) Q)
      → ((e : Failure) → Q b n (thrown e))
      → Bound id f Q b n r
  any (ok a) h k = h a
  any (thrown e) h k = k e

  -- A failure on its way through `withConnectError`.
  pub caught :
      {A : Type 0} {f : ConnectError → Thread A} {Q : Post A}
      → ((err : ConnectError) → Obeys id b n (f err) Q)
      → ((message : Text) → Q b n (thrown (other_error message)))
      → (e : Failure) → Caught id f Q b n (thrown e)
  caught h k (connect_error code raw) = h _
  caught h k (other_error message) = k message

module _ {id : Text} {b : Bool} {n : ℕ} where
  pub info-Obeys :
      {B : Type 0} (t : Text) (d : Metadata) (f : Unit {0} → Thread B) {Q : Post B}
      → Obeys id b n (f tt) Q
      → Obeys id b n (perform (info t d) >>= f) Q
  info-Obeys t d f h =
      bind-Obeys id
        (perform-Obeys id (info t d) tt tt tt (λ r possible. returned r possible (λ _. h)))

  pub error-Obeys :
      {B : Type 0} (t : Text) (d : Metadata) (f : Unit {0} → Thread B) {Q : Post B}
      → Obeys id b n (f tt) Q
      → Obeys id b n (perform (error t d) >>= f) Q
  error-Obeys t d f h =
      bind-Obeys id
        (perform-Obeys id (error t d) tt tt tt (λ r possible. returned r possible (λ _. h)))

  pub call-Obeys :
      {B : Type 0} (method : Method) (request : Request method) (f : Response method → Thread B)
      {Q : Post B}
      → IsWithin id (named_by method request)
      → 1 ≤ n
      → ((a : Response method) → Obeys id b (n - 1) (f a) Q)
      → ((e : Failure) → Q b (n - 1) (thrown e))
      → Obeys id b n (perform (call method request) >>= f) Q
  call-Obeys method request f on left h k =
      bind-Obeys id
        (perform-Obeys id (call method request) on tt left (λ r _. any {n = n - 1} {f = f} r h k))

  pub destroy_session-Obeys :
      {B : Type 0} (f : Unit {0} → Thread B) {Q : Post B}
      → Obeys id b n (f tt) Q
      → ((message : Text) → Q b n (thrown (other_error message)))
      → Obeys id b n (perform (destroy_session id) >>= f) Q
  destroy_session-Obeys f h k =
      bind-Obeys id
        (perform-Obeys id (destroy_session id) refl tt tt (λ r possible. own r possible (λ _. h) k))

-- What a command comes to: where it returns, the interaction has been replied to.
abbrev pub Ends : Post (Unit {0})
Ends replied left (ok _) = replied ≡ true
Ends replied left (thrown _) = Unit

pub ends : (n : ℕ) (r : Outcome Failure (Unit {0})) → IsOwn r → Ends true n r
ends n (ok _) possible = refl
ends n (thrown _) possible = tt

pub caught_ends :
    (id : Text) (n : ℕ) (f : ConnectError → Thread (Unit {0})) (r : Outcome Failure (Unit {0}))
    → IsOwn r
    → Caught id f Ends true n r
caught_ends id n f (ok _) possible = refl
caught_ends id n f (thrown (connect_error code raw)) possible = absurd possible
caught_ends id n f (thrown (other_error message)) possible = tt

module _ {id : Text} {n : ℕ} where
  -- The last reply.
  pub reply-Obeys :
      (t : Text) {Q : Post (Unit {0})}
      → 1 ≤ n
      → ((r : Outcome Failure (Unit {0})) → IsOwn r → Q true (n - 1) r)
      → Obeys id false n (perform (reply t)) Q
  reply-Obeys t left h = perform-Obeys id (reply t) tt refl left h

  pub said-Obeys :
      (t u : Text) (d : Metadata)
      → 1 ≤ n
      → Obeys id false n (perform (info t d) >> perform (reply u)) Ends
  said-Obeys t u d left = info-Obeys t d _ (reply-Obeys u left (ends (n - 1)))

  pub failed-Obeys :
      (t u : Text) (d : Metadata)
      → 1 ≤ n
      → Obeys id false n (perform (error t d) >> perform (reply u)) Ends
  failed-Obeys t u d left = error-Obeys t d _ (reply-Obeys u left (ends (n - 1)))

-- A call whose answer is logged and replied, or whose failure is.
pub answered-Obeys :
    {id : Text} {n : ℕ} (method : Method) (request : Request method) (t u : Response method → Text)
    (d : Response method → Metadata) (f : ConnectError → Thread (Unit {0}))
    → IsWithin id (named_by method request)
    → 2 ≤ n
    → ((err : ConnectError) → Obeys id false (n - 1) (f err) Ends)
    → Obeys id false n
        (with_connect_error
          (perform (call method request) >>= λ a.
            perform (info (t a) (d a)) >> perform (reply (u a)))
          f)
        Ends
answered-Obeys {id} {n} method request t u d f on left h = with_connect_error-Obeys id f (
    call-Obeys method request _ on (omega arith)
      (λ a. info-Obeys _ _ _ (reply-Obeys _ (omega arith) (caught_ends id (n - 1 - 1) f)))
      (caught h (λ _. tt)))
