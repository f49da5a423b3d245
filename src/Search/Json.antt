-- ===== src/Search/Json.antt =====
-- web/src/routes/api/youtube-search/+server.ts, `parseErrorReason`: the reason of a structured error.
use radio_jockey.Base.{Option, none, some, Bool, false, [], ◌∷◌, Text, text, text_eq, if◌then◌else◌}

-- A value of `JSON.parse`; a number, which nothing reads, is kept as its literal. An object lists
-- each of its own keys once; none of the properties that are read here stands on a prototype.
mutual
  pub data Json : Type 0 where
    null : Json
    boolean : Bool → Json
    number : Text → Json
    string : Text → Json
    array : Elements → Json
    object : Members → Json

  pub data Elements : Type 0 where
    nil : Elements
    cons : Json → Elements → Elements

  pub data Members : Type 0 where
    end : Members
    member : Text → Json → Members → Members

unfoldable pub find_member : Text → Members → Option Json
find_member key end = none
find_member key (member k v ms) = if text_eq k key then some v else find_member key ms

-- `v?.key`; `none` is undefined.
abbrev pub property : Text → Option Json → Option Json
property key (some (object ms)) = find_member key ms
property key _ = none

-- `v?.[0]`: the first element, the first code unit of a string, or the member with the key "0".
abbrev pub first_item : Option Json → Option Json
first_item (some (array (cons v vs))) = some v
first_item (some (string (c ∷ s))) = some (string (c ∷ []))
first_item (some (object ms)) = find_member (text "0") ms
first_item _ = none

-- `parse_json` is `JSON.parse`; `none` is the SyntaxError that it throws.
module _ (parse_json : Text → Option Json) where
  unfoldable pub parse_error_reason : Text → Option Json
  unfolding find_member
  parse_error_reason error_text =
      property (text "reason")
        (first_item (property (text "errors") (property (text "error") (parse_json error_text))))

-- `reason === t`.
abbrev pub is_string : Option Json → Text → Bool
is_string (some (string s)) t = text_eq s t
is_string _ t = false
