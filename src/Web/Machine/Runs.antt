-- ===== src/Web/Machine/Runs.antt =====
-- web/src: what holds along every run of a page.
use radio_jockey.Base.{
  ℕ, ◌+◌, ◌≤◌, Bool, true, List, [], ◌∷◌, ◌++◌, ◌≡◌, refl, ap, ◌∙◌, arith, ◌⊎◌, inl, inr, All,
  All-append,
}
use mathlib.Core.Path.{subst}
use radio_jockey.Web.Machine.{Machine, System, Step, happen, settle, Reach, here, step, bit, total}

pub total-append :
    {A : Type 0} (f : A → ℕ) (xs ys : List A) → total f (xs ++ ys) ≡ total f xs + total f ys
total-append f [] ys = omega arith
total-append f (x ∷ xs) ys = omega (arith, total-append f xs ys)

pub total-middle :
    {A : Type 0} (f : A → ℕ) (x : A) (xs ys : List A)
    → total f (xs ++ x ∷ ys) ≡ f x + total f (xs ++ ys)
total-middle f x [] ys = refl
total-middle f x (y ∷ xs) ys = omega (arith, total-middle f x xs ys)

All-middle :
    {A : Type 0} (Q : A → Type 0) (x : A) (xs ys : List A) → All Q (xs ++ x ∷ ys) → All Q (xs ++ ys)
All-middle Q x [] ys (h, hs) = hs
All-middle Q x (y ∷ xs) ys (h, hs) = (h, All-middle Q x xs ys hs)

module _ (m : Machine) where
  -- A predicate of the variables that both parts of every handler preserve.
  module _ (P : m.State → Type 0)
      (acts : (e : m.Event) (s : m.State) → m.enabled s e ≡ true → P s → P (m.act e s).0)
      (resumes : (t : m.Task) (a : m.Answer t) (s : m.State) → P s → P (m.resume t a s).0) where
    Step-keeps : {s u : System m} → Step m s u → P s.state → P u.state
    Step-keeps {s} (happen e on) h = acts e s.state on h
    Step-keeps {s} (settle before after t a e) h = resumes t a s.state h

    pub Reach-keeps : {s u : System m} → Reach m s u → P s.state → P u.state
    Reach-keeps here h = h
    Reach-keeps (step r st) h = Step-keeps st (Reach-keeps r h)

  -- A flag that is up while a handler of one kind waits, and down else.
  module _ (kind : m.Task → ℕ) (flag : m.State → Bool)
      (acts : (e : m.Event) (s : m.State)
        → m.enabled s e ≡ true
        → bit (flag (m.act e s).0) ≡ bit (flag s) + total kind (m.act e s).1)
      (resumes : (t : m.Task) (a : m.Answer t) (s : m.State)
        → kind t ≤ bit (flag s)
        → bit (flag (m.resume t a s).0) + kind t
          ≡ bit (flag s) + total kind (m.resume t a s).1) where
    Step-Counted :
        {s u : System m}
        → Step m s u
        → bit (flag s.state) ≡ total kind s.pending
        → bit (flag u.state) ≡ total kind u.pending
    Step-Counted {s} (happen e on) h =
        omega (arith, acts e s.state on, h, total-append kind (m.act e s.state).1 s.pending)
    Step-Counted {s} (settle before after t a e) h =
        let parts : total kind s.pending ≡ kind t + total kind (before ++ after) =
          ap (total kind) e ∙ total-middle kind t before after in
        let begun = (m.resume t a s.state).1 in
        omega (
          arith,
          resumes t a s.state (omega arith),
          h,
          parts,
          total-append kind begun (before ++ after),
        )

    pub Reach-Counted :
        {s u : System m}
        → Reach m s u
        → bit (flag s.state) ≡ total kind s.pending
        → bit (flag u.state) ≡ total kind u.pending
    Reach-Counted here h = h
    Reach-Counted (step r st) h = Step-Counted st (Reach-Counted r h)

  -- A flag that is up only while a handler of one kind waits.
  module _ (kind : m.Task → ℕ) (flag : m.State → Bool)
      (acts : (e : m.Event) (s : m.State)
        → m.enabled s e ≡ true
        → bit (flag (m.act e s).0) ≤ bit (flag s))
      (resumes : (t : m.Task) (a : m.Answer t) (s : m.State)
        → (bit (flag (m.resume t a s).0) ≤ total kind (m.resume t a s).1)
          ⊎ ((kind t ≡ 0) × (bit (flag (m.resume t a s).0) ≤ bit (flag s)))) where
    Step-Watched :
        {s u : System m}
        → Step m s u
        → bit (flag s.state) ≤ total kind s.pending
        → bit (flag u.state) ≤ total kind u.pending
    Step-Watched {s} (happen e on) h =
        omega (arith, acts e s.state on, h, total-append kind (m.act e s.state).1 s.pending)
    Step-Watched {s} (settle before after t a e) h =
        let parts : total kind s.pending ≡ kind t + total kind (before ++ after) =
          ap (total kind) e ∙ total-middle kind t before after in
        let begun = total-append kind (m.resume t a s.state).1 (before ++ after) in
        elim (resumes t a s.state) [
          | inl covered ↦ omega (arith, covered, begun)
          | inr (other, low) ↦ omega (arith, other, low, h, parts, begun)
        ]

    pub Reach-Watched :
        {s u : System m}
        → Reach m s u
        → bit (flag s.state) ≤ total kind s.pending
        → bit (flag u.state) ≤ total kind u.pending
    Reach-Watched here h = h
    Reach-Watched (step r st) h = Step-Watched st (Reach-Watched r h)

  -- What all waits have in common: it holds of those that a handler begins.
  module _ (Q : m.Task → Type 0)
      (acts : (e : m.Event) (s : m.State) → m.enabled s e ≡ true → All Q (m.act e s).1)
      (resumes : (t : m.Task) (a : m.Answer t) (s : m.State) → All Q (m.resume t a s).1) where
    Step-All : {s u : System m} → Step m s u → All Q s.pending → All Q u.pending
    Step-All {s} (happen e on) h = All-append Q (m.act e s.state).1 s.pending (acts e s.state on) h
    Step-All {s} (settle before after t a e) h =
        All-append Q (m.resume t a s.state).1 (before ++ after) (resumes t a s.state)
          (All-middle Q t before after (subst (All Q) e h))

    pub Reach-All : {s u : System m} → Reach m s u → All Q s.pending → All Q u.pending
    Reach-All here h = h
    Reach-All (step r st) h = Step-All st (Reach-All r h)
