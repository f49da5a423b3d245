-- ===== src/Web/Create/Submitting.antt =====
-- web/src/routes/stations/create/+page.svelte: the form while it is being submitted.
use radio_jockey.Base.{
  ◌+◌, ◌≤◌, Bool, true, false, List, [], ◌∷◌, Text, ◌≡◌, refl, arith, ok, thrown, length,
}
use radio_jockey.Web.Machine.{System, Reach, bit, total}
use radio_jockey.Web.Machine.Runs.{Reach-Counted}
use radio_jockey.Web.Create.{
  Form, fresh, Task, create_session, goto, Answer, Event, type_name, check_archive, submit, act,
  resume, enabled, form, handle_submit, on_failure,
}

module _ (lower : Text → Text) where
  submitting_acts :
      (e : Event) (f : Form)
      → enabled f e ≡ true
      → bit (act lower e f).0.submitting ≡ bit f.submitting + total (λ _. 1) (act lower e f).1
  unfolding handle_submit
  submitting_acts (type_name v) f on = omega arith
  submitting_acts (check_archive v) f on = omega arith
  submitting_acts submit f on = ground arith

  submitting_resumes :
      (t : Task) (a : Answer t) (f : Form)
      → 1 ≤ bit f.submitting
      → bit (resume t a f).0.submitting + 1 ≡ bit f.submitting + total (λ _. 1) (resume t a f).1
  unfolding resume on_failure
  submitting_resumes (create_session r) (ok res) f h = omega arith
  submitting_resumes (create_session r) (thrown err) f h = ground arith
  submitting_resumes (goto url) (ok u) f h = ground arith
  submitting_resumes (goto url) (thrown err) f h = ground arith

  total_ones : (ts : List Task) → total (λ _. 1) ts ≡ length ts
  total_ones [] = refl
  total_ones (t ∷ ts) = omega (arith, total_ones ts)

  at_most_one : (b : Bool) → bit b ≤ 1
  at_most_one true = omega arith
  at_most_one false = omega arith

  -- However a form that began empty has come to be where it is, at most one of its calls is
  -- pending: a creation, or the change of page behind it.
  pub one_creation :
      {u : System (form lower)}
      → Reach (form lower) (record { state = fresh; pending = [] }) u
      → length u.pending ≤ 1
  one_creation {u} r = omega (
    arith,
    Reach-Counted (form lower) (λ _. 1) (λ g. g.submitting) submitting_acts submitting_resumes r
        refl,
    total_ones u.pending,
    at_most_one u.state.submitting,
  )
