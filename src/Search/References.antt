-- ===== src/Search/References.antt =====
-- web/src/routes/api/youtube-search/+server.ts, `decodeHtmlEntities` on one character reference.
use radio_jockey.Base.{
  ℕ, zero, suc, ◌<◌, Bool, true, false, Option, none, some, [], ◌∷◌, ◌++◌, Text, lookup, ◌==◌,
  ==_iff, ok, thrown, ◌>>=◌, ◌≡◌, refl, ap, ◌∙◌, arith, Bool-cases, inl, inr, All, ◌≢◌, length,
  is_digit, decimal, decimal-IsDigit, decimal-ne-nil, IsDigit, read-decimal,
}
use radio_jockey.Search.Entities.{
  range_error, decode_from, decode_html_entities, match_entity, decode_entity, named_entity,
  named_entities, is_alnum, run_until_semicolon, from_code_point, parse_int, parse_from,
  digit_value, nonempty_run, prepend, starts_hex,
}

ne_of_class : (p : ℕ → Bool) (c d : ℕ) → p d ≡ false → p c ≡ true → c ≢ d
ne_of_class p c d e q same = cc

run_until_semicolon-closed :
    (p : ℕ → Bool) (t rest : Text)
    → p b';' ≡ false
    → All (λ c. p c ≡ true) t
    → run_until_semicolon p (t ++ b';' ∷ rest) ≡ some t
unfolding run_until_semicolon
run_until_semicolon-closed p [] rest e h = refl
run_until_semicolon-closed p (c ∷ t) rest e (q, h) = elim (Bool-cases (c == b';')) [
  | inl same ↦ absurd (ne_of_class p c b';' e q ((==_iff c b';').0 same))
  | inr other ↦ rw (other, q, run_until_semicolon-closed p t rest e h)
]

match_entity-digits :
    (t rest : Text)
    → t ≢ []
    → All IsDigit t
    → match_entity (b'#' ∷ t ++ b';' ∷ rest) ≡ some (b'#' ∷ t)
unfolding match_entity
match_entity-digits [] rest e h = absurd (e refl)
match_entity-digits (c ∷ t) rest e (q, h) =
    let not_x : (c == b'x') ≡ false = ground arith in
    let run = run_until_semicolon-closed is_digit (c ∷ t) rest refl (q, h) in
    rw not_x (ap (λ r. prepend b'#' (nonempty_run r)) run)

-- Without a `#` it is the third alternative that is left.
match_entity_named :
    (c : ℕ) (s : Text)
    → (c == b'#') ≡ false
    → match_entity (c ∷ s) ≡ nonempty_run (run_until_semicolon is_alnum (c ∷ s))
unfolding match_entity
match_entity_named c [] h = ground arith
match_entity_named c (d ∷ s) h = rw h

match_entity-alnum :
    (t rest : Text)
    → t ≢ []
    → All (λ c. is_alnum c ≡ true) t
    → match_entity (t ++ b';' ∷ rest) ≡ some t
unfolding match_entity
match_entity-alnum [] rest e h = absurd (e refl)
match_entity-alnum (c ∷ t) rest e (q, h) =
    let not_hash : (c == b'#') ≡ false = ground arith in
    let run = run_until_semicolon-closed is_alnum (c ∷ t) rest refl (q, h) in
    match_entity_named c (t ++ b';' ∷ rest) not_hash ∙ ap nonempty_run run

parse_int_nonempty : (t : Text) → t ≢ [] → parse_int t 10 ≡ some (parse_from 10 0 t)
unfolding parse_int
parse_int_nonempty [] h = absurd (h refl)
parse_int_nonempty (c ∷ t) h = refl

starts_hex-digits : (t : Text) → All IsDigit t → starts_hex t ≡ false
starts_hex-digits [] h = refl
starts_hex-digits (c ∷ t) (q, h) = ground arith

pub parse_int-decimal : (n : ℕ) → parse_int (decimal n) 10 ≡ some n
unfolding parse_int
parse_int-decimal n =
    parse_int_nonempty (decimal n) (decimal-ne-nil n)
    ∙ ap some (read-decimal (parse_from 10) digit_value (λ acc c s. refl) (λ d h. ground arith) n)

module _ (inherited : Text → Option Text) where
  skip_lem :
      (t rest : Text)
      → decode_from inherited (suc (length t)) (t ++ b';' ∷ rest) ≡ decode_from inherited zero rest
  unfolding decode_from
  skip_lem [] rest = refl
  skip_lem (c ∷ t) rest = skip_lem t rest

  -- A reference that the pattern matches is replaced, and the scan goes on behind it.
  decode_from-match :
      (t rest : Text)
      → match_entity (t ++ b';' ∷ rest) ≡ some t
      → decode_from inherited zero (b'&' ∷ t ++ b';' ∷ rest) ≡ (do
        decoded ← decode_entity inherited (b'&' ∷ t ++ b';' ∷ []) t
        after ← decode_from inherited zero rest
        ok (decoded ++ after))
  unfolding decode_from
  decode_from-match t rest h = rw (h, decode_from) (rw skip_lem)

  decode_entity-decimal :
      (whole : Text) (n : ℕ) → decode_entity inherited whole (b'#' ∷ decimal n) ≡ from_code_point n
  unfolding decode_entity
  decode_entity-decimal whole n =
      rw (starts_hex-digits (decimal n) (decimal-IsDigit n)) (rw (parse_int-decimal n))

  decode_from_numeric :
      (n : ℕ) (rest : Text)
      → decode_from inherited zero (b'&' ∷ b'#' ∷ decimal n ++ b';' ∷ rest) ≡ (do
        decoded ← from_code_point n
        after ← decode_from inherited zero rest
        ok (decoded ++ after))
  decode_from_numeric n rest =
      let matched = match_entity-digits (decimal n) rest (decimal-ne-nil n) (decimal-IsDigit n) in
      decode_from-match (b'#' ∷ decimal n) rest matched ∙ rw decode_entity-decimal

  -- For every number `n`, `&#n;` in front of a text decodes to the code point `n`, or to its
  -- failure, and the text behind it is decoded next.
  pub decode_numeric :
      (n : ℕ) (rest : Text)
      → decode_html_entities inherited (b'&' ∷ b'#' ∷ decimal n ++ b';' ∷ rest) ≡ (do
        decoded ← from_code_point n
        after ← decode_html_entities inherited rest
        ok (decoded ++ after))
  unfolding decode_html_entities
  decode_numeric n rest = decode_from_numeric n rest

  -- A decimal reference to a number above 0x10ffff makes the whole call throw a RangeError,
  -- whatever follows it.
  pub decode_numeric_above :
      (n : ℕ) (rest : Text)
      → 0x10ffff < n
      → decode_html_entities inherited (b'&' ∷ b'#' ∷ decimal n ++ b';' ∷ rest) ≡ thrown range_error
  unfolding from_code_point
  decode_numeric_above n rest h = decode_numeric n rest ∙ ground arith

  decode_entity-inherited :
      (whole name property : Text)
      → All (λ c. is_alnum c ≡ true) name
      → lookup name named_entities ≡ none
      → inherited name ≡ some property
      → decode_entity inherited whole name ≡ ok property
  unfolding decode_entity named_entity
  decode_entity-inherited whole [] property h own found = rw (own, found)
  decode_entity-inherited whole (c ∷ name) property (q, h) own found =
      let not_hash : (c == b'#') ≡ false = ground arith in rw (not_hash, own, found)

  -- A name of letters and digits that is none of the named entities, but that objects inherit a
  -- property under, is replaced by the text of that property, and the text behind it is decoded
  -- next.
  pub decode_inherited :
      (name property : Text) (rest : Text)
      → name ≢ []
      → All (λ c. is_alnum c ≡ true) name
      → lookup name named_entities ≡ none
      → inherited name ≡ some property
      → decode_html_entities inherited (b'&' ∷ name ++ b';' ∷ rest)
        ≡ (do after ← decode_html_entities inherited rest; ok (property ++ after))
  unfolding decode_html_entities
  decode_inherited name property rest e h own found =
      decode_from-match name rest (match_entity-alnum name rest e h)
      ∙ rw (decode_entity-inherited _ name property h own found)
