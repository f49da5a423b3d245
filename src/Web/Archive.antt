-- ===== src/Web/Archive.antt =====
-- web/src/routes/archive: the link to an archive, and how the page of an archive opens, with
-- `BigInt` of the language.
use radio_jockey.Base.{
  ℕ, Bool, true, false, ◌&&◌, ◌||◌, Option, none, some, [], ◌∷◌, ◌++◌, Text, text, ◌≡◌, refl, ℤ,
  pos, negsuc, zero, suc, ◌==◌, leb, is_digit, decimal_ℤ, if◌then◌else◌,
}
use radio_jockey.Proto.Messages.{SessionArchiveInfo, GetSessionArchiveRequest}
use radio_jockey.Search.Entities.{is_hex, parse_int}
use radio_jockey.Search.Trimming.{trim}
use radio_jockey.Web.Pages.{ArchivePage}
pub mod Links

-- `every` of a test.
unfoldable pub all_units : (ℕ → Bool) → Text → Bool
all_units p [] = true
all_units p (c ∷ s) = p c && all_units p s

-- One digit or more of a radix, and nothing else.
unfoldable pub digits_of : (ℕ → Bool) → (radix : ℕ) → Text → Option ℕ
digits_of p radix s = if all_units p s then parse_int s radix else none

abbrev pub negate : ℕ → ℤ
negate zero = pos zero
negate (suc n) = negsuc n

abbrev pub with_sign : (ℕ → ℤ) → Option ℕ → Option ℤ
with_sign f none = none
with_sign f (some n) = some (f n)

unfoldable pub signed : Text → Option ℤ
unfolding digits_of
signed [] = none
signed (c ∷ s) =
    if c == b'-'
    then with_sign negate (digits_of is_digit 10 s)
    else if c == b'+'
    then with_sign pos (digits_of is_digit 10 s)
    else with_sign pos (digits_of is_digit 10 (c ∷ s))

-- A literal: a prefix for a radix allows no sign, and nothing at all is zero.
unfoldable pub literal : Text → Option ℤ
unfolding signed digits_of
literal [] = some (pos 0)
literal (c ∷ []) = signed (c ∷ [])
literal (c ∷ b ∷ s) =
    if c == b'0' && (b == b'x' || b == b'X')
    then with_sign pos (digits_of is_hex 16 s)
    else if c == b'0' && (b == b'o' || b == b'O')
    then with_sign pos (digits_of (λ d. leb b'0' d && leb d b'7') 8 s)
    else if c == b'0' && (b == b'b' || b == b'B')
    then with_sign pos (digits_of (λ d. leb b'0' d && leb d b'1') 2 s)
    else signed (c ∷ b ∷ s)

-- `BigInt(s)`; `none` is the SyntaxError that it throws.
unfoldable pub big_int : Text → Option ℤ
unfolding trim literal
big_int s = literal (trim s)

-- archive/+page.svelte: the link of an entry.
unfoldable pub archive_href : SessionArchiveInfo → Text
unfolding decimal_ℤ text
archive_href archive = text "/archive/" ++ decimal_ℤ archive.id

-- archive/[archiveId]/+page.svelte, when it opens: what it shows, and the request that it makes.
abbrev pub asking : ℤ → ArchivePage × GetSessionArchiveRequest
asking archive_id = (
  record { not_found = false; session_id = []; created_at = pos 0; tracks = []; error = [] },
  record { id = archive_id },
)

abbrev pub asking_for : Option ℤ → Option (ArchivePage × GetSessionArchiveRequest)
asking_for none = none
asking_for (some archive_id) = some (asking archive_id)

-- `none` is a page that could not be opened.
unfoldable pub open_archive : Text → Option (ArchivePage × GetSessionArchiveRequest)
unfolding big_int
open_archive archive_id = asking_for (big_int archive_id)

-- The page at a path name, of which the router says what stands for `archiveId` in it.
module _ (params : Text → Option Text) where
  abbrev pub open_param : Option Text → Option (ArchivePage × GetSessionArchiveRequest)
  open_param none = none
  open_param (some archive_id) = open_archive archive_id

  unfoldable pub visit : Text → Option (ArchivePage × GetSessionArchiveRequest)
  unfolding open_archive
  visit pathname = open_param (params pathname)

big_int_tests :
    (big_int (text " -12 ") ≡ some (negsuc 11))
    × (big_int (text "0xfF") ≡ some (pos 255))
    × (big_int (text "0b102") ≡ none)
    × (big_int (text "1.5") ≡ none)
    × (big_int [] ≡ some (pos 0))
unfolding big_int trim literal signed digits_of all_units parse_int text
big_int_tests = (refl, refl, refl, refl, refl)
