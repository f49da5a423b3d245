-- ===== src/Search/Escapes.antt =====
-- web/src/routes/api/youtube-search/+server.ts, `decodeHtmlEntities` against an escaper of HTML.
use radio_jockey.Base.{
  ℕ, zero, false, Option, [], ◌∷◌, ◌++◌, Text, text, text_eq, lookup, code_units, ◌==◌, ==_iff,
  if◌then◌else◌, Outcome, ok, thrown, ◌>>=◌, ◌≡◌, refl, sym, Bool-cases, inl, inr,
}
use mathlib.Core.List.{append-nil, append_assoc}
use radio_jockey.Search.Entities.{SearchError, decode_from, decode_html_entities}

-- The five characters that HTML escapes, as YouTube's API returns them.
unfoldable pub escape_char : ℕ → Text
unfolding text
escape_char c =
    if c == b'&'
    then text "&amp;"
    else if c == b'<'
    then text "&lt;"
    else if c == b'>'
    then text "&gt;"
    else if c == b'"'
    then text "&quot;"
    else if c == 39
    then text "&#39;"
    else c ∷ []

unfoldable pub escape : Text → Text
escape [] = []
escape (c ∷ s) = escape_char c ++ escape s

-- What the scan gives for the rest, behind one more piece.
abbrev behind : Text → Outcome SearchError Text → Outcome SearchError Text
behind t r = do rest ← r; ok (t ++ rest)

behind_nil : (r : Outcome SearchError Text) → behind [] r ≡ r
behind_nil (ok s) = refl
behind_nil (thrown e) = refl

behind_cons :
    (c : ℕ) (s : Text) (r : Outcome SearchError Text)
    → behind (c ∷ []) (behind s r) ≡ behind (c ∷ s) r
behind_cons c s (ok t) = refl
behind_cons c s (thrown e) = refl

module _ (inherited : Text → Option Text) where
  pub decode_from_plain :
      (c : ℕ) (s : Text)
      → (c == b'&') ≡ false
      → decode_from inherited zero (c ∷ s) ≡ behind (c ∷ []) (decode_from inherited zero s)
  unfolding decode_from
  decode_from_plain c s h = rw (h, decode_from)

  decode_from-escape_char :
      (c : ℕ) (rest : Text)
      → decode_from inherited zero (escape_char c ++ rest)
        ≡ behind (c ∷ []) (decode_from inherited zero rest)
  unfolding decode_from escape_char text_eq text lookup code_units
  decode_from-escape_char c rest = elim (Bool-cases (c == b'&')) [
    | inl e ↦ rw ((==_iff c b'&').0 e)
    | inr not_amp ↦ elim (Bool-cases (c == b'<')) [
      | inl e ↦ rw ((==_iff c b'<').0 e)
      | inr not_lt ↦ elim (Bool-cases (c == b'>')) [
        | inl e ↦ rw ((==_iff c b'>').0 e)
        | inr not_gt ↦ elim (Bool-cases (c == b'"')) [
          | inl e ↦ rw ((==_iff c b'"').0 e)
          | inr not_quot ↦ elim (Bool-cases (c == 39)) [
            | inl e ↦ rw ((==_iff c 39).0 e)
            | inr not_apos ↦
                rw (not_amp, not_lt, not_gt, not_quot, not_apos) (decode_from_plain c rest not_amp)
          ]
        ]
      ]
    ]
  ]

  decode_from-escape :
      (s rest : Text)
      → decode_from inherited zero (escape s ++ rest) ≡ behind s (decode_from inherited zero rest)
  unfolding escape
  decode_from-escape [] rest = sym (behind_nil _)
  decode_from-escape (c ∷ s) rest =
      rw (append_assoc, decode_from-escape_char, decode_from-escape s rest) (behind_cons c s _)

  -- Decoding undoes the HTML escaping of any text, whatever objects inherit.
  pub decode_html_entities-escape : (s : Text) → decode_html_entities inherited (escape s) ≡ ok s
  unfolding decode_html_entities
  decode_html_entities-escape s =
      rw (← append-nil (escape s), decode_from-escape s [], append-nil s)
