-- ===== src/Web/Machine/Settling.antt =====
-- web/src: a page in which nothing new happens, while its pending calls settle.
use radio_jockey.Base.{ℕ, zero, suc, ◌+◌, ◌≤◌, ◌<◌, List, [], ◌∷◌, ◌++◌, ◌≡◌, refl, ap, ◌∙◌, arith}
use radio_jockey.Web.Machine.{Machine, System, settle, Reach, step, after_resume, total}
use radio_jockey.Web.Machine.Runs.{total-append, total-middle}

module _ (m : Machine) where
  -- Steps in which nothing new happens, counted.
  pub data Settles (s : System m) : ℕ → System m → Type 0 where
    none_left : Settles s zero s
    one_more :
        {n : ℕ} {u : System m}
        → Settles s n u
        → (before after : List m.Task) (t : m.Task) (a : m.Answer t)
        → u.pending ≡ before ++ t ∷ after
        → Settles s (suc n) (after_resume m (m.resume t a u.state) before after)

  -- If every answer lowers the weight of what is waited for, the waits come to an end.
  pub Settles-bounded :
      (weight : m.Task → ℕ)
      → ((t : m.Task) (a : m.Answer t) (s : m.State) → total weight (m.resume t a s).1 < weight t)
      → {s u : System m} {n : ℕ} → Settles s n u
      → n + total weight u.pending ≤ total weight s.pending
  Settles-bounded weight falls none_left = omega arith
  Settles-bounded weight falls (one_more {n} {u} r before after t a e) =
      let parts : total weight u.pending ≡ weight t + total weight (before ++ after) =
        ap (total weight) e ∙ total-middle weight t before after in
      let begun = (m.resume t a u.state).1 in
      omega (
        arith,
        Settles-bounded weight falls r,
        falls t a u.state,
        parts,
        total-append weight begun (before ++ after),
      )

  -- Whatever the answers are, and in whatever order of the first wait, the page comes to rest.
  module _ (weight : m.Task → ℕ)
      (falls : (t : m.Task) (a : m.Answer t) (s : m.State)
        → total weight (m.resume t a s).1 < weight t)
      (answer : (t : m.Task) → m.Answer t) {s : System m} where
    drain :
        (fuel : ℕ) {n : ℕ} (v : m.State) (pending : List m.Task)
        → Settles s n (record { state = v; pending = pending })
        → total weight pending < fuel
        → (k : ℕ) × (u : System m) × Settles s k u × (u.pending ≡ [])
    drain zero v pending r h = absurd (omega arith)
    drain (suc fuel) v [] r h = (_, _, r, refl)
    drain (suc fuel) v (t ∷ rest) r h =
        let next = m.resume t (answer t) v in
        drain fuel next.0 (next.1 ++ rest) (one_more r [] rest t (answer t) refl)
          (omega (arith, falls t (answer t) v, total-append weight next.1 rest, h))

  pub comes_to_rest :
      (weight : m.Task → ℕ)
      → ((t : m.Task) (a : m.Answer t) (s : m.State) → total weight (m.resume t a s).1 < weight t)
      → ((t : m.Task) → m.Answer t)
      → (s : System m) → (k : ℕ) × (u : System m) × Settles s k u × (u.pending ≡ [])
  comes_to_rest weight falls answer s =
      drain weight falls answer (suc (total weight s.pending)) s.state s.pending none_left
        (omega arith)

  -- A run goes on without events.
  pub Reach-Settles : {s t u : System m} {n : ℕ} → Reach m s t → Settles t n u → Reach m s u
  Reach-Settles r none_left = r
  Reach-Settles r (one_more q before after t a e) =
      step (Reach-Settles r q) (settle before after t a e)

  -- Whatever the answers are, no more than so many settle unless something happens; when none is
  -- pending any more the page is at rest; and that can be reached.
  pub record ComesToRest (weight : m.Task → ℕ) (Idle : m.State → Type 0) (s : System m)
      : Type 0 where
    pub bounded :
        (n : ℕ) (u : System m) → Settles s n u → n + total weight u.pending ≤ total weight s.pending
    pub idle : (n : ℕ) (u : System m) → Settles s n u → u.pending ≡ [] → Idle u.state
    pub ends :
        ((t : m.Task) → m.Answer t) → (n : ℕ) × (u : System m) × Settles s n u × (u.pending ≡ [])

  pub Reach-ComesToRest :
      (weight : m.Task → ℕ) (Idle : m.State → Type 0)
      → ((t : m.Task) (a : m.Answer t) (s : m.State) → total weight (m.resume t a s).1 < weight t)
      → (start s : System m) → ((u : System m) → Reach m start u → u.pending ≡ [] → Idle u.state)
      → Reach m start s
      → ComesToRest weight Idle s
  Reach-ComesToRest weight Idle falls start s at_rest r = record {
    bounded = λ n u q. Settles-bounded weight falls q;
    idle = λ n u q e. at_rest u (Reach-Settles r q) e;
    ends = λ answer. comes_to_rest weight falls answer s;
  }
