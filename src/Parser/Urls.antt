-- ===== src/Parser/Urls.antt =====
-- `normalize_metadata_url` of src/core/parser.rs. The crate `url` is a parameter.
pub mod Quotes
pub mod Accepted
pub mod Tests
use scriptmetakit.Chars.Search.{contains_text}
use scriptmetakit.Chars.{Text, codes, trim, is_empty, text_eq, strip_prefix}
use scriptmetakit.Prelude.{
  ℕ, zero, suc, Bool, true, false, not, ◌&&◌, ◌||◌, [], ◌∷◌, ◌++◌, Option, none, some, ◌==◌,
  if◌then◌else◌, is_some, length, drop_while,
}

-- The calls of the crate: `Url::parse(…).ok()`, `scheme`, `to_file_path().is_ok()`,
-- `host_str().is_some()`.
pub record UrlCrate : Type 1 where
  pub Url : Type 0
  pub parse : Text → Option Url
  pub scheme : Url → Text
  pub has_file_path : Url → Bool
  pub has_host : Url → Bool

abbrev pub is_quote : ℕ → Bool
is_quote c = c == 0x22 || c == 0x27

-- `trim_end_matches`.
pub trim_end_quotes : Text → Text
trim_end_quotes [] = []
trim_end_quotes (c ∷ s) =
    let kept = trim_end_quotes s in if is_quote c && is_empty kept then [] else c ∷ kept

-- The body of the loop.
pub unquote_once : Text → Text
unquote_once value = trim (trim_end_quotes (drop_while is_quote value))

-- The loop. The fuel is the number of characters, since each round but the last removes one.
pub unquote : ℕ → Text → Text
unquote zero value = value
unquote (suc fuel) value =
    let rest = unquote fuel (unquote_once value) in
    if length (unquote_once value) == length value then value else rest

pub unquoted : Text → Text
unquoted value = unquote (length (trim value)) (trim value)

-- `https:/` without a second slash, and the same for `http:/`.
pub repair : Text → Text → Text → Option Text
repair value single double = elim (strip_prefix value single) [
  | none ↦ none
  | some rest ↦ if is_some (strip_prefix value double) then none else some (double ++ rest)
]

pub repaired : Text → Option Text
repaired value = elim (repair value (codes "https:/") (codes "https://")) [
  | some text ↦ some text
  | none ↦ repair value (codes "http:/") (codes "http://")
]

module _ (crate : UrlCrate) where
  open crate use {Url, parse, scheme, has_file_path, has_host}

  pub accept : Url → Option Url
  accept url =
      if text_eq (scheme url) (codes "file")
      then (if has_file_path url then some url else none)
      else if has_host url
      then some url
      else none

  pub parse_metadata_url : Text → Option Url
  parse_metadata_url value = elim (parse value) [ none ↦ none | some url ↦ accept url ]

  pub parse_repaired : Option Text → Option Url
  parse_repaired none = none
  parse_repaired (some text) = parse_metadata_url text

  pub with_scheme : Text → Option Url
  with_scheme value =
      if contains_text value (codes "://")
      then none
      else parse_metadata_url (codes "https://" ++ value)

  -- The attempts, each made if those before it failed.
  pub attempts : Text → Option Url
  attempts value = elim (parse_metadata_url value) [
    | some url ↦ some url
    | none ↦ elim (parse_repaired (repaired value)) [
      | some url ↦ some url
      | none ↦ with_scheme value
    ]
  ]

  pub normalize_metadata_url : Text → Option Url
  normalize_metadata_url value =
      if is_empty (unquoted value) then none else attempts (unquoted value)
