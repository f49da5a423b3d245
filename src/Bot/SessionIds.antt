-- ===== src/Bot/SessionIds.antt =====
-- discord-jockey/src/util/helpers.ts, `getSessionId`: the form of session ids, and that two guilds
-- never share one.
use radio_jockey.Base.{
  ℕ, Bool, true, false, Option, some, [], ◌∷◌, Text, ◌==◌, ◌≡◌, ◌≢◌, ◌⊎◌, inl, inr, refl, arith,
  Bool-cases, All, IsDigit, append_sep_inj,
}
use radio_jockey.Bot.Slug.{
  is_slug_char, dash_runs, trim_dashes_start, trim_dashes_end, close_dash, slug_of, session_id_of,
}

-- Letters and digits in words that single dashes part. The flag says that a dash stands before.
abbrev pub IsSlugFrom : Bool → Text → Type 0
IsSlugFrom true [] = ⊥
IsSlugFrom false [] = Unit {0}
IsSlugFrom b (c ∷ s) =
    ((is_slug_char c ≡ true) × IsSlugFrom false s) ⊎ ((b ≡ false) × (c ≡ b'-') × IsSlugFrom true s)

-- `([a-z0-9]+(-[a-z0-9]+)*)?`.
abbrev pub IsSlug : Text → Type 0
IsSlug [] = Unit {0}
IsSlug (c ∷ s) = (is_slug_char c ≡ true) × IsSlugFrom false s

-- The same with a dash allowed at both ends.
abbrev Runs : Bool → Text → Type 0
Runs b [] = Unit {0}
Runs b (c ∷ s) = ((is_slug_char c ≡ true) × Runs false s) ⊎ ((b ≡ false) × (c ≡ b'-') × Runs true s)

dash_runs-Runs : (b : Bool) (s : Text) → Runs b (dash_runs b s)
unfolding dash_runs
dash_runs-Runs b [] = tt
dash_runs-Runs true (c ∷ s) =
    let kept = dash_runs-Runs false s in
    let inside = dash_runs-Runs true s in
    elim (Bool-cases (is_slug_char c)) [
      | inl keep ↦ rw keep (inl (keep, kept))
      | inr other ↦ rw other inside
    ]
dash_runs-Runs false (c ∷ s) =
    let kept = dash_runs-Runs false s in
    let inside = dash_runs-Runs true s in
    elim (Bool-cases (is_slug_char c)) [
      | inl keep ↦ rw keep (inl (keep, kept))
      | inr other ↦ rw other (inr (refl, refl, inside))
    ]

abbrev Starts : Text → Type 0
Starts [] = Unit {0}
Starts (c ∷ s) = (is_slug_char c ≡ true) × Runs false s

pub not_dash : (c : ℕ) → is_slug_char c ≡ true → (c == b'-') ≡ false
not_dash c h = ground arith

pub is_dash : (c : ℕ) → c ≡ b'-' → (c == b'-') ≡ true
is_dash c h = ground arith

trim_dashes_start-Starts : (b : Bool) (s : Text) → Runs b s → Starts (trim_dashes_start s)
unfolding trim_dashes_start
trim_dashes_start-Starts b [] h = tt
trim_dashes_start-Starts b (c ∷ s) (inl (keep, h)) = rw (not_dash c keep) (keep, h)
trim_dashes_start-Starts b (c ∷ s) (inr (e, dash, h)) =
    rw (is_dash c dash) (trim_dashes_start-Starts true s h)

close_dash-IsSlugFrom :
    (c : ℕ) (t : Text)
    → c ≡ b'-'
    → (t ≡ []) ⊎ IsSlugFrom true t
    → IsSlugFrom false (close_dash true c t)
close_dash-IsSlugFrom c [] e h = tt
close_dash-IsSlugFrom c (d ∷ t) e (inl h) = absurd (ground arith)
close_dash-IsSlugFrom c (d ∷ t) e (inr h) = inr (refl, e, h)

-- The text behind a character that is kept, and behind a dash.
abbrev Ended : Bool → Text → Type 0
Ended false t = IsSlugFrom false t
Ended true t = (t ≡ []) ⊎ IsSlugFrom true t

trim_dashes_end-Ended : (b : Bool) (s : Text) → Runs b s → Ended b (trim_dashes_end s)
unfolding trim_dashes_end
trim_dashes_end-Ended true [] h = inl refl
trim_dashes_end-Ended false [] h = tt
trim_dashes_end-Ended true (c ∷ s) (inl (keep, h)) =
    rw (not_dash c keep) (inr (inl (keep, trim_dashes_end-Ended false s h)))
trim_dashes_end-Ended false (c ∷ s) (inl (keep, h)) =
    rw (not_dash c keep) (inl (keep, trim_dashes_end-Ended false s h))
trim_dashes_end-Ended true (c ∷ s) (inr (e, dash, h)) = absurd (ground arith)
trim_dashes_end-Ended false (c ∷ s) (inr (e, dash, h)) =
    rw (is_dash c dash)
      (close_dash-IsSlugFrom c (trim_dashes_end s) dash (trim_dashes_end-Ended true s h))

trim_dashes_end-IsSlug : (s : Text) → Starts s → IsSlug (trim_dashes_end s)
unfolding trim_dashes_end
trim_dashes_end-IsSlug [] h = tt
trim_dashes_end-IsSlug (c ∷ s) (keep, h) =
    rw (not_dash c keep) (keep, trim_dashes_end-Ended false s h)

module _ (lower : Text → Text) where
  -- Whatever the name of a guild and whatever lower case is, its slug is words of lower-case
  -- letters and digits with a single dash between two words and none at the ends.
  pub slug_of-IsSlug : (name : Text) → IsSlug (slug_of lower name)
  unfolding slug_of
  slug_of-IsSlug name =
      trim_dashes_end-IsSlug _
        (trim_dashes_start-Starts false _ (dash_runs-Runs false (lower name)))

  digits_have_no_dash : (t : Text) → All IsDigit t → All (λ c. c ≢ b'-') t
  digits_have_no_dash [] h = tt
  digits_have_no_dash (c ∷ t) (d, h) = ((λ e. ground arith), digits_have_no_dash t h)

  -- If the session ids of two guilds are equal and the ids of the guilds are made of digits, then
  -- the ids of the guilds are equal, whatever the guilds are called.
  pub session_id_of_inj :
      (name name' : Option Text) (guild_id guild_id' : Text)
      → All IsDigit guild_id
      → All IsDigit guild_id'
      → session_id_of lower name (some guild_id) ≡ session_id_of lower name' (some guild_id')
      → guild_id ≡ guild_id'
  unfolding session_id_of
  session_id_of_inj name name' guild_id guild_id' h h' e =
      (append_sep_inj b'-' _ _ guild_id guild_id' (digits_have_no_dash guild_id h)
        (digits_have_no_dash guild_id' h') e).1
