-- ===== src/Search/Entities.antt =====
-- web/src/routes/api/youtube-search/+server.ts, `decodeHtmlEntities`: the HTML entities of a snippet.
use radio_jockey.Base.{
  ℕ, zero, suc, ◌+◌, ◌*◌, ◌-◌, Bool, false, ◌||◌, ◌&&◌, Option, none, some, [], ◌∷◌, ◌++◌, Text,
  Dict, text, text_eq, code_units, lookup, leb, ◌==◌, if◌then◌else◌, is_digit, is_lower, is_upper,
  length, Outcome, ok, thrown, ◌>>=◌, ◌≡◌, refl,
}

-- What the handler may throw: `String.fromCodePoint` out of range, a `fetch` that fails, a body
-- that cannot be read.
pub data SearchError : Type 0 where
  range_error fetch_failed body_unreadable : SearchError

abbrev pub is_hex : ℕ → Bool
is_hex c = is_digit c || (leb b'a' c && leb c b'f') || (leb b'A' c && leb c b'F')

abbrev pub is_alnum : ℕ → Bool
is_alnum c = is_digit c || is_lower c || is_upper c

abbrev pub prepend : ℕ → Option Text → Option Text
prepend c none = none
prepend c (some t) = some (c ∷ t)

-- The characters of a class up to the `;` that closes them: `[class]*;`, with no `;` in the class.
unfoldable pub run_until_semicolon : (ℕ → Bool) → Text → Option Text
run_until_semicolon p [] = none
run_until_semicolon p (c ∷ s) =
    if c == b';' then some [] else if p c then prepend c (run_until_semicolon p s) else none

-- A run that must hold a character: `[class]+;`.
abbrev pub nonempty_run : Option Text → Option Text
nonempty_run none = none
nonempty_run (some []) = none
nonempty_run (some (c ∷ t)) = some (c ∷ t)

-- The group of `&(#\d+|#x[0-9a-fA-F]+|[a-zA-Z0-9]+);`, on the text behind the `&`. The three
-- alternatives exclude one another by the first two characters.
unfoldable pub match_entity : Text → Option Text
unfolding run_until_semicolon
match_entity [] = none
match_entity (a ∷ []) = none
match_entity (a ∷ b ∷ s) =
    if a == b'#'
    then (if b == b'x'
        then prepend a (prepend b (nonempty_run (run_until_semicolon is_hex s)))
        else prepend a (nonempty_run (run_until_semicolon is_digit (b ∷ s))))
    else nonempty_run (run_until_semicolon is_alnum (a ∷ b ∷ s))

-- The value of a digit of radix 10 or 16.
abbrev pub digit_value : ℕ → ℕ
digit_value c = if is_digit c then c - b'0' else if leb b'a' c then c - 87 else c - 55

unfoldable pub parse_from : ℕ → ℕ → Text → ℕ
parse_from radix acc [] = acc
parse_from radix acc (c ∷ s) = parse_from radix (acc * radix + digit_value c) s

-- `parseInt(s, radix)` on a run of digits of the radix, which is all that the pattern lets
-- through; `none` is NaN.
unfoldable pub parse_int : Text → ℕ → Option ℕ
unfolding parse_from
parse_int [] radix = none
parse_int (c ∷ s) radix = some (parse_from radix 0 (c ∷ s))

-- `String.fromCodePoint`.
unfoldable pub from_code_point : ℕ → Outcome SearchError Text
unfolding code_units
from_code_point c = if leb c 0x10ffff then ok (code_units c) else thrown range_error

abbrev pub named_entities : Dict Text
named_entities =
    (text "amp", text "&")
    ∷ (text "lt", text "<")
    ∷ (text "gt", text ">")
    ∷ (text "quot", text "\"")
    ∷ (text "apos", text "'")
    ∷ (text "#39", text "'")
    ∷ []

abbrev pub or_else : Option Text → Option Text → Option Text
or_else none d = d
or_else (some t) d = some t

abbrev pub or_text : Option Text → Text → Text
or_text none d = d
or_text (some t) d = t

abbrev pub decode_code : Text → Option ℕ → Outcome SearchError Text
decode_code whole none = ok whole
decode_code whole (some code) = from_code_point code

abbrev pub starts_hex : Text → Bool
starts_hex [] = false
starts_hex (c ∷ s) = c == b'x' || c == b'X'

abbrev pub tail_of : Text → Text
tail_of [] = []
tail_of (c ∷ s) = s

-- `inherited` gives the text of what an object literal has from `Object.prototype` under a name:
-- `NAMED_ENTITIES[entity]` reads through the prototype chain, and the runtime prints the function
-- that it finds there.
module _ (inherited : Text → Option Text) where
  unfoldable pub named_entity : Text → Option Text
  unfolding lookup text
  named_entity entity = or_else (lookup entity named_entities) (inherited entity)

  -- The callback of `replace`: `whole` is the match, `entity` its group.
  unfoldable pub decode_entity : Text → Text → Outcome SearchError Text
  unfolding parse_int from_code_point named_entity
  decode_entity whole [] = ok (or_text (named_entity []) whole)
  decode_entity whole (c ∷ s) =
      if c == b'#'
      then decode_code whole (if starts_hex s then parse_int (tail_of s) 16 else parse_int s 10)
      else ok (or_text (named_entity (c ∷ s)) whole)

  -- The scan of `text.replace(/…/g, …)`: `skip` characters of a match are still to be passed over.
  unfoldable pub decode_from : ℕ → Text → Outcome SearchError Text
  unfolding match_entity decode_entity
  decode_from skip [] = ok []
  decode_from (suc skip) (c ∷ s) = decode_from skip s
  decode_from zero (c ∷ s) = elim (if c == b'&' then match_entity s else none) [
    | none ↦ do rest ← decode_from zero s; ok (c ∷ rest)
    | some entity ↦ do
      decoded ← decode_entity (b'&' ∷ entity ++ b';' ∷ []) entity
      rest ← decode_from (suc (length entity)) s
      ok (decoded ++ rest)
  ]

  unfoldable pub decode_html_entities : Text → Outcome SearchError Text
  unfolding decode_from
  decode_html_entities s = decode_from zero s

  decode_tests :
      (decode_html_entities (text "a &amp; b &#39;x&#x41; &; &nope&#65;&lt")
        ≡ ok (text "a & b 'xA &; &nopeA&lt"))
      × (decode_html_entities (text "&#1114112;") ≡ thrown range_error)
  unfolding decode_html_entities text text_eq
  decode_tests = (refl, refl)
