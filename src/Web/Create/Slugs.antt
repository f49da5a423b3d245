-- ===== src/Web/Create/Slugs.antt =====
-- web/src/routes/stations/create/+page.svelte, `slugify`: what it leaves as it is, and whose ids a
-- station of the web site can have.
use radio_jockey.Base.{
  ℕ, Bool, true, false, Option, some, List, [], ◌∷◌, ◌++◌, Text, ◌≡◌, inl, inr, refl, ap, ◌∙◌,
  arith, ◌↔◌, text, All, IsDigit, is_nonempty,
}
use mathlib.Core.Path.{subst}
use radio_jockey.Bot.Slug.{
  is_slug_char, dash_runs, trim_dashes_start, trim_dashes_end, slug_of, session_id_of, or_text,
}
use radio_jockey.Bot.SessionIds.{IsSlug, IsSlugFrom, slug_of-IsSlug, not_dash, is_dash}
use radio_jockey.Web.Create.{Form, Task, create_session, slugify, handle_submit}

dash_out : (c : ℕ) → c ≡ b'-' → is_slug_char c ≡ false
dash_out c h = ground arith

dash_runs_slug : (b : Bool) (s : Text) → IsSlugFrom b s → dash_runs b s ≡ s
unfolding dash_runs
dash_runs_slug b [] h = refl
dash_runs_slug true (c ∷ s) (inl (keep, h)) = rw keep (ap (λ t. c ∷ t) (dash_runs_slug false s h))
dash_runs_slug false (c ∷ s) (inl (keep, h)) = rw keep (ap (λ t. c ∷ t) (dash_runs_slug false s h))
dash_runs_slug true (c ∷ s) (inr (e, dash, h)) = absurd (ground arith)
dash_runs_slug false (c ∷ s) (inr (e, dash, h)) =
    rw (dash_out c dash) (ground (arith, ap (λ t. c ∷ t) (dash_runs_slug true s h)))

trim_dashes_start_slug : (s : Text) → IsSlug s → trim_dashes_start s ≡ s
unfolding trim_dashes_start
trim_dashes_start_slug [] h = refl
trim_dashes_start_slug (c ∷ s) (keep, h) = ground arith

trim_dashes_end_slug : (b : Bool) (s : Text) → IsSlugFrom b s → trim_dashes_end s ≡ s
unfolding trim_dashes_end
trim_dashes_end_slug b [] h = refl
trim_dashes_end_slug true (c ∷ s) (inl (keep, h)) =
    rw (trim_dashes_end_slug false s h, not_dash c keep) refl
trim_dashes_end_slug false (c ∷ s) (inl (keep, h)) =
    rw (trim_dashes_end_slug false s h, not_dash c keep) refl
trim_dashes_end_slug true (c ∷ s) (inr (e, dash, h)) = absurd (ground arith)
trim_dashes_end_slug false (c ∷ []) (inr (e, dash, h)) = absurd h
trim_dashes_end_slug false (c ∷ d ∷ s) (inr (e, dash, h)) =
    rw (trim_dashes_end_slug true (d ∷ s) h, is_dash c dash) refl

trim_slug : (s : Text) → IsSlug s → trim_dashes_end s ≡ s
unfolding trim_dashes_end
trim_slug [] h = refl
trim_slug (c ∷ s) (keep, h) = trim_dashes_end_slug false (c ∷ s) (inl (keep, h))

dash_runs_fixed : (s : Text) → IsSlug s → dash_runs false s ≡ s
unfolding dash_runs
dash_runs_fixed [] h = refl
dash_runs_fixed (c ∷ s) (keep, h) = dash_runs_slug false (c ∷ s) (inl (keep, h))

slug_behind_dash : (t : Text) → is_nonempty t ≡ true → IsSlug t → IsSlugFrom true t
slug_behind_dash [] ne h = absurd (ground arith)
slug_behind_dash (c ∷ t) ne (keep, h) = inl (keep, h)

append-IsSlugFrom :
    (b : Bool) (s t : Text) → IsSlugFrom b s → IsSlugFrom true t → IsSlugFrom b (s ++ b'-' ∷ t)
append-IsSlugFrom true [] t h k = absurd h
append-IsSlugFrom false [] t h k = inr (refl, refl, k)
append-IsSlugFrom true (c ∷ s) t (inl (keep, h)) k = inl (keep, append-IsSlugFrom false s t h k)
append-IsSlugFrom false (c ∷ s) t (inl (keep, h)) k = inl (keep, append-IsSlugFrom false s t h k)
append-IsSlugFrom true (c ∷ s) t (inr (e, dash, h)) k = absurd (ground arith)
append-IsSlugFrom false (c ∷ s) t (inr (e, dash, h)) k =
    inr (e, dash, append-IsSlugFrom true s t h k)

append-IsSlug :
    (s t : Text) → is_nonempty s ≡ true → IsSlug s → IsSlugFrom true t → IsSlug (s ++ b'-' ∷ t)
append-IsSlug [] t ne h k = absurd (ground arith)
append-IsSlug (c ∷ s) t ne (keep, h) k = (keep, append-IsSlugFrom false s t h k)

digits-IsSlug : (t : Text) → All IsDigit t → IsSlugFrom false t
digits-IsSlug [] h = tt
digits-IsSlug (c ∷ t) (d, h) = inl (ground arith, digits-IsSlug t h)

digits_behind_dash : (t : Text) → is_nonempty t ≡ true → All IsDigit t → IsSlugFrom true t
digits_behind_dash [] ne h = absurd (ground arith)
digits_behind_dash (c ∷ t) ne (d, h) = inl (ground arith, digits-IsSlug t h)

append-ne-nil : (s : Text) (c : ℕ) (t : Text) → is_nonempty (s ++ c ∷ t) ≡ true
append-ne-nil [] c t = refl
append-ne-nil (x ∷ s) c t = refl

module _ (lower : Text → Text) where
  -- For a text that lower case leaves as it is, `slugify` leaves it as it is exactly if it is
  -- empty or words of lower-case letters and digits with a single dash between two words and none
  -- at the ends.
  pub slugify_fixed : (s : Text) → lower s ≡ s → (slugify lower s ≡ s) ↔ IsSlug s
  unfolding slugify slug_of
  slugify_fixed s e =
      let reached : slugify lower s ≡ s → IsSlug s =
        λ fixed. subst IsSlug fixed (slug_of-IsSlug lower s) in
      let kept : IsSlug s → slugify lower s ≡ s =
        λ h. rw (e, dash_runs_fixed s h, trim_dashes_start_slug s h) (trim_slug s h) in
      (reached, kept)

  -- What the form does with a name is to ask for a station of exactly that id.
  abbrev pub AsksFor : Text → Form → Form × List Task → Type 0
  AsksFor id f r =
      (r.0.submitting ≡ true)
      × (r.1 ≡ create_session (record { session_id = id; archive = f.archive }) ∷ [])

  submit-AsksFor :
      (id : Text) (f : Form)
      → is_nonempty id ≡ true
      → slugify lower f.name ≡ id
      → AsksFor id f (handle_submit lower f)
  unfolding handle_submit
  submit-AsksFor id f ne e = rw (e, ne) (refl, refl)

  -- If lower case leaves slugs as they are, then for a guild whose name has a slug that is not
  -- empty and whose id is digits and not empty, the form with the session id of that guild as its
  -- name asks the server to create a session of exactly that id.
  pub submit_bot_id :
      (guild_name : Option Text) (guild_id : Text) (f : Form)
      → ((s : Text) → IsSlug s → lower s ≡ s)
      → is_nonempty (slug_of lower (or_text guild_name (text "unknown"))) ≡ true
      → All IsDigit guild_id
      → is_nonempty guild_id ≡ true
      → f.name ≡ session_id_of lower guild_name (some guild_id)
      → AsksFor (session_id_of lower guild_name (some guild_id)) f (handle_submit lower f)
  unfolding session_id_of
  submit_bot_id guild_name guild_id f lower_slug named digits ne e =
      let slug = slug_of lower (or_text guild_name (text "unknown")) in
      let id = session_id_of lower guild_name (some guild_id) in
      let well_formed : IsSlug id =
        append-IsSlug slug guild_id named
          (slug_of-IsSlug lower (or_text guild_name (text "unknown")))
          (digits_behind_dash guild_id ne digits) in
      submit-AsksFor id f (append-ne-nil slug b'-' guild_id)
        (ap (slugify lower) e ∙ (slugify_fixed id (lower_slug id well_formed)).1 well_formed)
