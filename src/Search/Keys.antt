-- ===== src/Search/Keys.antt =====
-- web/src/routes/api/youtube-search/+server.ts, `cacheKey`: which requests share an entry.
use radio_jockey.Base.{
  Option, none, some, [], ◌∷◌, ◌++◌, Text, ◌≡◌, sym, ◌∙◌, All, ◌≢◌, append_sep_inj,
}
use mathlib.Core.List.{append_assoc, append_cancel_right}
use radio_jockey.Search.Cache.{cache_key, or_empty}

module _ (lower : Text → Text) where
  -- If two requests share a cache key and their page tokens hold no colon, their queries have one
  -- lower-case form and their page tokens are equal, an absent one counting as empty.
  pub cache_key_inj :
      (q q' : Text) (token token' : Option Text)
      → All (λ c. c ≢ b':') (or_empty token)
      → All (λ c. c ≢ b':') (or_empty token')
      → cache_key lower q token ≡ cache_key lower q' token'
      → (lower q ≡ lower q') × (or_empty token ≡ or_empty token')
  unfolding cache_key
  cache_key_inj q q' token token' h h' e =
      let colon : Text = b':' ∷ [] in
      let split : (lower q ++ colon) ++ b':' ∷ or_empty token
          ≡ (lower q' ++ colon) ++ b':' ∷ or_empty token' =
        append_assoc (lower q) colon _ ∙ e ∙ sym (append_assoc (lower q') colon _) in
      let (heads, tails) =
        append_sep_inj b':' (lower q ++ colon) (lower q' ++ colon) (or_empty token)
          (or_empty token') h h' split in
      (append_cancel_right (lower q) (lower q') colon heads, tails)

  -- If lower case leaves the end of a query from two colons on as it is, the key of the query
  -- without a page token is also the key of what stands before the colons, with the rest and two
  -- colons as its page token.
  pub cache_key_collision :
      (q rest : Text)
      → lower (q ++ b':' ∷ b':' ∷ rest) ≡ lower q ++ b':' ∷ b':' ∷ rest
      → cache_key lower (q ++ b':' ∷ b':' ∷ rest) none
        ≡ cache_key lower q (some (rest ++ b':' ∷ b':' ∷ []))
  unfolding cache_key
  cache_key_collision q rest h =
      rw h (append_assoc (lower q) (b':' ∷ b':' ∷ rest) (b':' ∷ b':' ∷ []))
