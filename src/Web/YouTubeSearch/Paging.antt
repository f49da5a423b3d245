-- ===== src/Web/YouTubeSearch/Paging.antt =====
-- web/src/lib/components/YouTubeSearch.svelte: the tokens of the pages.
use radio_jockey.Base.{
  ℕ, zero, suc, ◌+◌, ◌≤◌, ◌<◌, true, Option, none, some, List, [], ◌∷◌, ◌++◌, Text, ◌≡◌, refl, ◌∙◌,
  arith, ok, thrown, Bool-cases, inl, inr, is_nonempty, length, take,
}
use radio_jockey.Search.Responses.{nonempty_text}
use radio_jockey.Search.Trimming.{trim}
use radio_jockey.Web.Machine.{System, Reach}
use radio_jockey.Web.Machine.Runs.{Reach-keeps}
use radio_jockey.Web.YouTubeSearch.{
  Panel, Task, search, add, Answer, failed, refused, found, Event, submit, press_next, press_prev,
  press_add, act, resume, enabled, panel, fresh, handle_submit, handle_next, handle_prev,
  handle_add, run_search, token_at, turn_to_next, turn_to_prev,
}

-- The current page has a token, and that of the first page is undefined.
pub record IsPaged (p : Panel) : Type 0 where
  pub within : p.page_index < length p.page_tokens
  pub first : token_at p.page_tokens 0 ≡ none

length-take-append :
    (n : ℕ) (ts : List (Option Text)) (t : Option Text)
    → n < length ts
    → n + 1 < length (take (suc n) ts ++ t ∷ [])
length-take-append zero [] t h = absurd (omega arith)
length-take-append zero (x ∷ ts) t h = omega arith
length-take-append (suc n) [] t h = absurd (omega arith)
length-take-append (suc n) (x ∷ ts) t h = omega (arith, length-take-append n ts t (omega arith))

pub token_at-take :
    (n i : ℕ) (ts : List (Option Text)) (t : Option Text)
    → n < length ts
    → i ≤ n
    → token_at (take (suc n) ts ++ t ∷ []) i ≡ token_at ts i
token_at-take n i [] t h k = absurd (omega arith)
token_at-take n zero (x ∷ ts) t h k = refl
token_at-take zero (suc i) (x ∷ ts) t h k = absurd (omega arith)
token_at-take (suc n) (suc i) (x ∷ ts) t h k = token_at-take n i ts t (omega arith) (omega arith)

token_at-take_next :
    (n : ℕ) (ts : List (Option Text)) (t : Option Text)
    → n < length ts
    → token_at (take (suc n) ts ++ t ∷ []) (suc n) ≡ t
token_at-take_next n [] t h = absurd (omega arith)
token_at-take_next zero (x ∷ ts) t h = refl
token_at-take_next (suc n) (x ∷ ts) t h = token_at-take_next n ts t (omega arith)

turn_to_next-IsPaged : (t : Option Text) (p : Panel) → IsPaged p → IsPaged (turn_to_next t p).0
unfolding run_search
turn_to_next-IsPaged none p h = h
turn_to_next-IsPaged (some t) p h = record {
  within = omega (arith, length-take-append p.page_index p.page_tokens (some t) h.within);
  first = token_at-take p.page_index 0 p.page_tokens (some t) h.within (omega arith) ∙ h.first;
}

turn_to_prev-IsPaged :
    (i : ℕ) (p : Panel) → i ≡ p.page_index → IsPaged p → IsPaged (turn_to_prev i p).0
unfolding run_search
turn_to_prev-IsPaged zero p e h = h
turn_to_prev-IsPaged (suc i) p e h = record { within = omega (arith, e, h.within); first = h.first }

module _ (session_id : Text) where
  act-IsPaged :
      (e : Event) (p : Panel) → enabled p e ≡ true → IsPaged p → IsPaged (act session_id e p).0
  unfolding handle_submit handle_next handle_prev handle_add
  act-IsPaged (submit query) p on h = elim (Bool-cases (is_nonempty (trim query))) [
    | inl asked ↦ rw asked (record { within = omega arith; first = refl })
    | inr empty ↦ rw empty h
  ]
  act-IsPaged press_next p on h = turn_to_next-IsPaged (nonempty_text p.next_page_token) p h
  act-IsPaged press_prev p on h = turn_to_prev-IsPaged p.page_index p refl h
  act-IsPaged (press_add video_id) p on h = record { within = h.within; first = h.first }

  resume-IsPaged : (t : Task) (a : Answer t) (p : Panel) → IsPaged p → IsPaged (resume t a p).0
  unfolding resume
  resume-IsPaged (search query none) (failed err) p h = record {
    within = omega arith;
    first = refl;
  }
  resume-IsPaged (search query none) (refused s) p h = record { within = omega arith; first = refl }
  resume-IsPaged (search query none) (found rs t) p h = record {
    within = h.within;
    first = h.first;
  }
  resume-IsPaged (search query (some turn)) (failed err) p h = record {
    within = h.within;
    first = h.first;
  }
  resume-IsPaged (search query (some turn)) (refused s) p h = record {
    within = h.within;
    first = h.first;
  }
  resume-IsPaged (search query (some turn)) (found rs t) p h = record {
    within = h.within;
    first = h.first;
  }
  resume-IsPaged (add request w) (ok r) p h = record { within = h.within; first = h.first }
  resume-IsPaged (add request w) (thrown e) p h = record { within = h.within; first = h.first }

  -- However a panel that began empty has come to be where it is, the index of its page is below
  -- the number of its page tokens, and the token of the first page is undefined.
  pub Reach-IsPaged :
      {u : System (panel session_id)}
      → Reach (panel session_id) (record { state = fresh; pending = [] }) u
      → IsPaged u.state
  Reach-IsPaged r =
      Reach-keeps (panel session_id) IsPaged act-IsPaged resume-IsPaged r
        (record { within = omega arith; first = refl })
