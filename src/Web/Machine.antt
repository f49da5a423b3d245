-- ===== src/Web/Machine.antt =====
-- web/src: a page or component as an event loop. A handler runs without interruption up to its next
-- `await`, and from there on when the awaited promise settles; anything may run in between.
pub mod Runs
pub mod Settling
use radio_jockey.Base.{
  ℕ, zero, suc, ◌+◌, ◌≤◌, ◌<◌, Bool, true, false, List, [], ◌∷◌, ◌++◌, ◌≡◌, refl, sym, arith,
  if◌then◌else◌,
}
use mathlib.Core.Path.{subst}

-- What a page is: its variables, what may happen to it, and what its handlers wait for. `act` is the
-- first part of a handler, and `resume` the part behind a wait; each leaves the variables and the
-- waits that it begins. `enabled` says when the markup lets an event happen.
pub record Machine : Type 1 where
  pub State : Type 0
  pub Event : Type 0
  pub Task : Type 0
  pub Answer : Task → Type 0
  pub enabled : State → Event → Bool
  pub act : Event → State → State × List Task
  pub resume : (t : Task) → Answer t → State → State × List Task

module _ (m : Machine) where
  pub record System : Type 0 where
    pub state : m.State
    pub pending : List m.Task

  abbrev pub after_act : m.State × List m.Task → List m.Task → System
  after_act (s, begun) pending = record { state = s; pending = begun ++ pending }

  abbrev pub after_resume : m.State × List m.Task → List m.Task → List m.Task → System
  after_resume (s, begun) before after = record { state = s; pending = begun ++ (before ++ after) }

  pub data Step (s : System) : System → Type 0 where
    happen :
        (e : m.Event) → m.enabled s.state e ≡ true → Step s (after_act (m.act e s.state) s.pending)
    settle :
        (before after : List m.Task) (t : m.Task) (a : m.Answer t)
        → s.pending ≡ before ++ t ∷ after
        → Step s (after_resume (m.resume t a s.state) before after)

  pub data Reach (s : System) : System → Type 0 where
    here : Reach s s
    step : {t u : System} → Reach s t → Step t u → Reach s u

-- What the waits of a page cost: each counts for its weight.
abbrev pub bit : Bool → ℕ
bit true = 1
bit false = 0

abbrev pub total : {A : Type 0} → (A → ℕ) → List A → ℕ
total f [] = 0
total f (x ∷ xs) = f x + total f xs
