-- ===== src/Retry.antt =====
-- src/resolver/retry.rs: which failures of a source are tried again, and the hints in a message.
-- `parse_retry_after_millis`, which reads the clock, is not modelled.
mod Status
use scriptmetakit.Chars.Search.{contains_text}
use scriptmetakit.Chars.{Text, codes, is_ascii_digit, is_empty, strip_prefix}
use scriptmetakit.Errors.{
  ScriptMetaKitError, invalid_config, parse, url, timeout, cache, cache_incompatible, conflict,
  not_implemented, io,
}
use scriptmetakit.Prelude.{
  ℕ, ◌-◌, ◌^◌, Bool, true, false, not, ◌&&◌, ◌||◌, List, [], ◌∷◌, ◌++◌, Option, none, some, ltb,
  leb, ◌==◌, if◌then◌else◌, any, is_some, take_while,
}
use scriptmetakit.Version.Lossy.{decimal}

-- What follows the first occurrence of the marker.
behind_marker : Text → Text → Option Text
behind_marker marker [] = strip_prefix [] marker
behind_marker marker (c ∷ s) =
    let later = behind_marker marker s in
    elim (strip_prefix (c ∷ s) marker) [ some rest ↦ some rest | none ↦ later ]

-- What stands before the next occurrence.
before_marker : Text → Text → Text
before_marker marker [] = []
before_marker marker (c ∷ s) =
    let later = before_marker marker s in
    if is_some (strip_prefix (c ∷ s) marker) then [] else c ∷ later

-- `message.split(marker).nth(1)`
second_part : Text → Text → Option Text
second_part marker message = elim (behind_marker marker message) [
  | none ↦ none
  | some rest ↦ some (before_marker marker rest)
]

-- `parse` on a text of digits, into an unsigned type with this greatest value.
parse_digits : ℕ → Text → Option ℕ
parse_digits max digits =
    if is_empty digits || ltb max (decimal digits) then none else some (decimal digits)

-- The number that the part begins with.
leading_number : ℕ → Option Text → Option ℕ
leading_number max none = none
leading_number max (some part) = parse_digits max (take_while is_ascii_digit part)

abbrev pub u16_max : ℕ
u16_max = 2 ^ 16 - 1

pub http_status_from_error_message : Text → Option ℕ
http_status_from_error_message message =
    leading_number u16_max (second_part (codes "http_status=") message)

pub retry_after_hint_millis : ScriptMetaKitError → Option ℕ
retry_after_hint_millis (url message) =
    leading_number (2 ^ 64 - 1) (second_part (codes "retry_after_millis=") message)
retry_after_hint_millis (timeout _) = none
retry_after_hint_millis (io _ _) = none
retry_after_hint_millis (invalid_config _) = none
retry_after_hint_millis (parse _) = none
retry_after_hint_millis (cache _) = none
retry_after_hint_millis (cache_incompatible _) = none
retry_after_hint_millis (conflict _) = none
retry_after_hint_millis (not_implemented _) = none

retryable_status : Option ℕ → Bool
retryable_status none = false
retryable_status (some status) =
    status == 408 || status == 425 || status == 429 || (leb 500 status && leb status 599)

abbrev retryable_kinds : List Text
retryable_kinds =
    codes "kind=NotFound"
    ∷ codes "kind=Interrupted"
    ∷ codes "kind=WouldBlock"
    ∷ codes "kind=TimedOut"
    ∷ codes "kind=ConnectionReset"
    ∷ codes "kind=ConnectionAborted"
    ∷ codes "kind=BrokenPipe"
    ∷ codes "kind=UnexpectedEof"
    ∷ []

pub is_retryable_source_error : ScriptMetaKitError → Bool
is_retryable_source_error (timeout message) = not (contains_text message (codes "cancelled"))
is_retryable_source_error (url message) =
    contains_text message (codes "transient_transport:")
    || retryable_status (http_status_from_error_message message)
is_retryable_source_error (io _ message) = any (contains_text message) retryable_kinds
is_retryable_source_error (invalid_config _) = false
is_retryable_source_error (parse _) = false
is_retryable_source_error (cache _) = false
is_retryable_source_error (cache_incompatible _) = false
is_retryable_source_error (conflict _) = false
is_retryable_source_error (not_implemented _) = false
