-- ===== src/Bot/Logger.antt =====
-- discord-jockey/src/util/logger.ts: the line that is printed for a log call.
use radio_jockey.Base.{List, [], ◌∷◌, ◌++◌, Text, text, join, map, ◌≡◌, refl}

-- The entries of the metadata, each value as `${v}` prints it.
abbrev pub Metadata : Type 0
Metadata = List (Text × Text)

unfoldable pub show_entry : Text × Text → Text
show_entry (k, v) = text " " ++ k ++ text ": " ++ v

unfoldable pub show_metadata : Metadata → Text
unfolding show_entry
show_metadata [] = []
show_metadata (e ∷ es) = text " {" ++ join (text ",") (map show_entry (e ∷ es)) ++ text " }"

unfoldable pub format : Text → Text → Metadata → Text
unfolding show_metadata
format level message metadata =
    text "[discord-jockey] " ++ level ++ text ": " ++ message ++ show_metadata metadata

format_test :
    format (text "INFO") (text "hi") ((text "a", text "1") ∷ (text "b", text "2") ∷ [])
    ≡ text "[discord-jockey] INFO: hi { a: 1, b: 2 }"
unfolding format text join
format_test = refl
