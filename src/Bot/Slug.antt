-- ===== src/Bot/Slug.antt =====
-- discord-jockey/src/util/helpers.ts, `getSessionId`: the session id of a guild.
use radio_jockey.Base.{
  ℕ, Bool, true, false, ◌||◌, Option, none, some, [], ◌∷◌, ◌++◌, Text, text, ◌==◌, if◌then◌else◌,
  is_digit, is_lower, ◌≡◌, refl,
}

-- `[a-z0-9]`.
abbrev pub is_slug_char : ℕ → Bool
is_slug_char c = is_lower c || is_digit c

-- `.replace(/[^a-z0-9]+/g, "-")`: a dash for each maximal run of other characters. The flag says
-- that the run before has its dash.
unfoldable pub dash_runs : Bool → Text → Text
dash_runs in_run [] = []
dash_runs in_run (c ∷ s) =
    let keep = c ∷ dash_runs false s in
    let rest = dash_runs true s in
    if is_slug_char c then keep else if in_run then rest else b'-' ∷ rest

-- `.replace(/^-+/, "")`.
unfoldable pub trim_dashes_start : Text → Text
trim_dashes_start [] = []
trim_dashes_start (c ∷ s) = let rest = trim_dashes_start s in if c == b'-' then rest else c ∷ s

-- A dash is kept only before something that is kept.
abbrev pub close_dash : Bool → ℕ → Text → Text
close_dash false c t = c ∷ t
close_dash true c [] = []
close_dash true c (d ∷ t) = c ∷ d ∷ t

-- `.replace(/-+$/, "")`.
unfoldable pub trim_dashes_end : Text → Text
trim_dashes_end [] = []
trim_dashes_end (c ∷ s) = close_dash (c == b'-') c (trim_dashes_end s)

abbrev pub or_text : Option Text → Text → Text
or_text none d = d
or_text (some t) d = t

-- `lower` is `String.prototype.toLowerCase`.
module _ (lower : Text → Text) where
  unfoldable pub slug_of : Text → Text
  slug_of name = trim_dashes_end (trim_dashes_start (dash_runs false (lower name)))

  -- `guild_name` is `interaction.guild?.name`; a guild id that is null prints as "null".
  unfoldable pub session_id_of : Option Text → Option Text → Text
  unfolding slug_of
  session_id_of guild_name guild_id =
      slug_of (or_text guild_name (text "unknown")) ++ b'-' ∷ or_text guild_id (text "null")

session_id_test :
    session_id_of (λ s. s) (some (text "--my server!! 2-")) (some (text "42"))
    ≡ text "my-server-2-42"
unfolding session_id_of text dash_runs trim_dashes_start trim_dashes_end
session_id_test = refl
