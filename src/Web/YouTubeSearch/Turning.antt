-- ===== src/Web/YouTubeSearch/Turning.antt =====
-- web/src/lib/components/YouTubeSearch.svelte, `handleNext` and `handlePrev`: turning a page, and
-- what the panel shows when that fails.
use radio_jockey.Base.{
  ℕ, suc, true, false, some, List, [], ◌∷◌, ◌++◌, Text, text, ◌≡◌, refl, sym, ap, arith,
  is_nonempty, take,
}
use mathlib.Core.Path.{subst}
use radio_jockey.Search.Responses.{nonempty_text}
use radio_jockey.Web.YouTubeSearch.{
  Panel, next, prev, Task, search, Fetched, failed, refused, found, Event, submit, press_next,
  press_prev, press_add, resume, enabled, handle_next, handle_prev, run_search, token_at, is_shown,
  turn_to_next, refusal_message,
}
use radio_jockey.Web.YouTubeSearch.Paging.{IsPaged, token_at-take}

-- The state and the requests of `handleNext`, and the panel once its request is answered.
abbrev pub answered : Panel → Text → Fetched → Panel × List Task → Panel
answered p token fetched (q, begun) =
    (resume (search p.current_query (some (record { token = some token; direction = next })))
      fetched q).0

pub next_lem :
    (p : Panel) (token : Text)
    → nonempty_text p.next_page_token ≡ some token
    → handle_next p ≡ turn_to_next (some token) p
unfolding handle_next
next_lem p token h = ap (λ t. turn_to_next t p) h

-- `handleNext` has asked for a token, and `handlePrev`, after the answer, asks for that of the page
-- before and is at its index.
abbrev pub TurnsBack : Panel → Text → Fetched → Panel × List Task → Type 0
TurnsBack p token fetched r =
    (r.1 ≡ search p.current_query (some (record { token = some token; direction = next })) ∷ [])
    × ((handle_prev (answered p token fetched r)).1
        ≡ search p.current_query
            (some (record { token = token_at p.page_tokens p.page_index; direction = prev }))
          ∷ [])
    × ((handle_prev (answered p token fetched r)).0.page_index ≡ p.page_index)

turns_back :
    (p : Panel) (token : Text) (fetched : Fetched)
    → IsPaged p
    → TurnsBack p token fetched (turn_to_next (some token) p)
unfolding run_search handle_prev resume
turns_back p token fetched h = by_answer fetched
  where
    same :
        (query : Text)
        → search query (
              some (record {
                token =
                    token_at
                      (take (suc p.page_index) p.page_tokens ++ some token ∷ [])
                      p.page_index;
                direction = prev;
              }))
            ∷ []
          ≡ search query
              (some (record { token = token_at p.page_tokens p.page_index; direction = prev }))
            ∷ []
    same query =
        ap (λ t. search query (some (record { token = t; direction = prev })) ∷ [])
          (token_at-take p.page_index p.page_index p.page_tokens (some token) h.within
            (omega arith))

    by_answer : (f : Fetched) → TurnsBack p token f (turn_to_next (some token) p)
    by_answer (failed err) = (refl, same p.current_query, refl)
    by_answer (refused status) = (refl, same p.current_query, refl)
    by_answer (found rs t) = (refl, same p.current_query, refl)

-- If the index of the page is below the number of the page tokens and the first token is
-- undefined, then with a next page token that is not empty, `handleNext` searches the current
-- query with that token, and `handlePrev`, after whatever answer, searches it with the token of
-- the page before and is at the index of that page.
pub next-prev :
    (p : Panel) (token : Text) (fetched : Fetched)
    → IsPaged p
    → nonempty_text p.next_page_token ≡ some token
    → TurnsBack p token fetched (handle_next p)
next-prev p token fetched h e =
    subst (TurnsBack p token fetched) (sym (next_lem p token e)) (turns_back p token fetched h)

-- The results are as before, but hidden, the index has moved, and only a search is left to do.
abbrev pub IsHidden : Panel → Panel → Type 0
IsHidden p q =
    (q.results ≡ p.results)
    × (q.page_index ≡ suc p.page_index)
    × (is_shown q ≡ false)
    × ((e : Event) → enabled q e ≡ true → (query : Text) × (e ≡ submit query))

refusal_message-ne-nil : (status : ℕ) → is_nonempty (refusal_message status) ≡ true
unfolding refusal_message text
refusal_message-ne-nil status = ground arith

only_submit :
    (q : Panel) (e : Event)
    → is_shown q ≡ false
    → enabled q e ≡ true
    → (query : Text) × (e ≡ submit query)
only_submit q (submit query) h on = (query, refl)
only_submit q press_next h on = absurd (ground arith)
only_submit q press_prev h on = absurd (ground arith)
only_submit q (press_add v) h on = absurd (ground arith)

hidden_lem :
    (p : Panel) (q : Panel)
    → q.results ≡ p.results
    → q.page_index ≡ suc p.page_index
    → is_nonempty q.search_error ≡ true
    → IsHidden p q
hidden_lem p q same moved error =
    let hidden : is_shown q ≡ false = ground arith in
    (same, moved, hidden, λ e. only_submit q e hidden)

-- If a next page token that is not empty is there, then when the turn to the next page is refused
-- with any status, the results are as before but are not shown, the index of the page is one
-- higher, and no event is enabled but a submit of the form.
pub failed_turn :
    (p : Panel) (token : Text) (status : ℕ)
    → nonempty_text p.next_page_token ≡ some token
    → IsHidden p (answered p token (refused status) (handle_next p))
unfolding resume run_search
failed_turn p token status e =
    subst (λ r. IsHidden p (answered p token (refused status) r)) (sym (next_lem p token e))
      (hidden_lem p (answered p token (refused status) (turn_to_next (some token) p)) refl refl
        (refusal_message-ne-nil status))
