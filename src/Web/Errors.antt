-- ===== src/Web/Errors.antt =====
-- web/src/lib/errors.ts: the messages that the pages show for failed calls.
use radio_jockey.Base.{
  List, [], ◌∷◌, Text, text, text_eq, text_eq_iff, if◌then◌else◌, ◌≡◌, ◌≢◌, ◌↔◌, arith, refl,
}
use radio_jockey.Proto.Service.{
  Code, invalid_argument, not_found, resource_exhausted, Failure, connect_error, other_error,
}

-- A message, with what was printed by `console.error`.
abbrev pub Shown : Type 0
Shown = Text × List Failure

abbrev pub generic_error : Text
generic_error = text "Something went wrong. Please try again."

unfoldable pub friendly_error : Failure → Shown
friendly_error err = (generic_error, err ∷ [])

unfoldable pub connect_message : Code → Text → Text
connect_message invalid_argument raw = text "Invalid URL. Please try again with a YouTube link!"
connect_message not_found raw = text "That video is unavailable or the station has ended."
connect_message resource_exhausted raw =
    if text_eq raw (text "rate limit exceeded")
    then text "You're adding tracks too fast. Wait a moment and try again."
    else text "The queue is full!"
connect_message _ raw = text "Something went wrong adding that track."

unfoldable pub add_track_error_message : Failure → Shown
unfolding connect_message friendly_error
add_track_error_message (connect_error code raw) = (connect_message code raw, [])
add_track_error_message (other_error message) = friendly_error (other_error message)

-- The message on adding too fast is shown exactly for a ConnectError with the code
-- ResourceExhausted and the raw message `rate limit exceeded`.
pub add_track_error_message-rate_limit :
    (err : Failure)
    → ((add_track_error_message err).0
        ≡ text "You're adding tracks too fast. Wait a moment and try again.")
      ↔ (err ≡ connect_error resource_exhausted (text "rate limit exceeded"))
unfolding add_track_error_message connect_message friendly_error text
add_track_error_message-rate_limit (other_error message) = ground arith
add_track_error_message-rate_limit (connect_error invalid_argument raw) = ground arith
add_track_error_message-rate_limit (connect_error not_found raw) = ground arith
add_track_error_message-rate_limit (connect_error resource_exhausted raw) =
    ground (arith, text_eq_iff raw (text "rate limit exceeded"))
add_track_error_message-rate_limit (connect_error _ raw) = ground arith

-- For two ConnectErrors with one code, neither with the raw message `rate limit exceeded`, the
-- page shows the same message and prints the same.
pub add_track_error_message_raw :
    (code : Code) (raw raw' : Text)
    → raw ≢ text "rate limit exceeded"
    → raw' ≢ text "rate limit exceeded"
    → add_track_error_message (connect_error code raw)
      ≡ add_track_error_message (connect_error code raw')
unfolding add_track_error_message connect_message
add_track_error_message_raw invalid_argument raw raw' h h' = refl
add_track_error_message_raw not_found raw raw' h h' = refl
add_track_error_message_raw resource_exhausted raw raw' h h' =
    let limit = text "rate limit exceeded" in
    ground (arith, text_eq_iff raw limit, text_eq_iff raw' limit)
add_track_error_message_raw _ raw raw' h h' = refl
