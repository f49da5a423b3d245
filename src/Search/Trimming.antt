-- ===== src/Search/Trimming.antt =====
-- web/src/routes/api/youtube-search/+server.ts: `trim` on the query.
use radio_jockey.Base.{
  ℕ, Bool, ◌||◌, ◌&&◌, not, [], ◌∷◌, Text, is_nonempty, leb, ◌==◌, if◌then◌else◌,
}

-- White space and line terminators of ECMAScript.
unfoldable pub is_space : ℕ → Bool
is_space c =
    (leb 9 c && leb c 13)
    || c == 32
    || c == 0xa0
    || c == 0x1680
    || (leb 0x2000 c && leb c 0x200a)
    || c == 0x2028
    || c == 0x2029
    || c == 0x202f
    || c == 0x205f
    || c == 0x3000
    || c == 0xfeff

unfoldable pub trim_start : Text → Text
unfolding is_space
trim_start [] = []
trim_start (c ∷ s) = if is_space c then trim_start s else c ∷ s

-- Drops the white space at the end.
unfoldable pub trim_end : Text → Text
unfolding is_space
trim_end [] = []
trim_end (c ∷ s) =
    let rest = trim_end s in if is_space c && not (is_nonempty rest) then [] else c ∷ rest

unfoldable pub trim : Text → Text
unfolding trim_start trim_end
trim s = trim_end (trim_start s)
