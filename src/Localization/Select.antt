-- ===== src/Localization/Select.antt =====
-- `lookup_candidates` and `select_text`: which translation a reader gets.
pub mod Fallbacks
pub mod Subtags
pub mod Choice
mod Tests
use scriptmetakit.Chars.{Text, text_eq, trim, is_empty}
use scriptmetakit.Prelude.{
  ℕ, zero, suc, Bool, true, false, not, ◌&&◌, List, [], ◌∷◌, ◌++◌, Option, none, some, ltb, ◌==◌,
  if◌then◌else◌, length,
}

-- `str::rsplit_once`: the texts around the last `c`.
unfoldable pub rsplit_once : ℕ → Text → Option (Text × Text)
rsplit_once c [] = none
rsplit_once c (x ∷ s) = elim (rsplit_once c s) [
  | some (before, after) ↦ some (x ∷ before, after)
  | none ↦ if x == c then some ([], s) else none
]

-- `parent.rsplit('-').next()`, the part behind the last dash, is one byte long.
unfoldable pub one_byte : Text → Bool
one_byte [] = false
one_byte (c ∷ []) = ltb c 128
one_byte (c ∷ d ∷ s) = false

unfoldable pub last_part_is_single : Text → Bool
last_part_is_single parent = elim (rsplit_once b'-' parent) [
  | none ↦ one_byte parent
  | some (_, part) ↦ one_byte part
]

unfoldable pub before_last : Text → Option Text
before_last text = elim (rsplit_once b'-' text) [ none ↦ none | some (before, _) ↦ some before ]

-- `(!parent.is_empty()).then_some(parent)`
unfoldable pub unless_empty : Text → Option Text
unless_empty [] = none
unless_empty (c ∷ s) = some (c ∷ s)

-- The closure that `successors` applies.
unfoldable pub broader : Text → Option Text
broader current = elim (before_last current) [
  | none ↦ none
  | some parent ↦
      if last_part_is_single parent
      then elim (before_last parent) [ none ↦ none | some shorter ↦ unless_empty shorter ]
      else unless_empty parent
]

-- The chain of `successors` from a first language; a candidate is longer than the next.
unfoldable pub chain : ℕ → Option Text → List Text
chain fuel none = []
chain zero (some current) = []
chain (suc fuel) (some current) = current ∷ chain fuel (broader current)

unfoldable pub lookup_candidates : Text → List Text
lookup_candidates language = chain (length language) (unless_empty language)

-- A map as its list of entries.
abbrev pub Values : Type 0
Values = List (Text × Text)

pub get : Values → Text → Option Text
get [] key = none
get ((k, v) ∷ values) key = if text_eq k key then some v else get values key

-- `.filter(|value| !value.trim().is_empty())`
unfoldable pub nonblank : Option Text → Option Text
nonblank none = none
nonblank (some value) = if is_empty (trim value) then none else some value

-- `Some(candidate) == default_language`
is_default : Option Text → Text → Bool
is_default none candidate = false
is_default (some language) candidate = text_eq candidate language

abbrev pub Selected : Type 0
Selected = Option Text × Option Text

module _ (default : Option Text) (values : Values) (default_language : Option Text) where
  default_for : Text → Option Selected
  default_for candidate =
      if is_default default_language candidate
      then elim (nonblank default) [
        | none ↦ none
        | some value ↦ some (some value, default_language)
      ]
      else none

  -- What one round of the first loop returns, if it returns.
  pub round : Text → Option Selected
  round candidate = elim (nonblank (get values candidate)) [
    | some value ↦ some (some value, some candidate)
    | none ↦ default_for candidate
  ]

  unfoldable pub try_candidates : List Text → Option Selected
  try_candidates [] = none
  try_candidates (c ∷ cs) = elim (round c) [ some s ↦ some s | none ↦ try_candidates cs ]

  unfoldable pub try_preferences : List Text → Option Selected
  try_preferences [] = none
  try_preferences (p ∷ ps) = elim (try_candidates (lookup_candidates p)) [
    | some s ↦ some s
    | none ↦ try_preferences ps
  ]

  -- The last loop, and the final `(None, None)`.
  unfoldable pub try_values : List Text → Selected
  try_values [] = (none, none)
  try_values (c ∷ cs) = elim (nonblank (get values c)) [
    | some value ↦ (some value, some c)
    | none ↦ try_values cs
  ]

  unfoldable pub without_default : Selected
  without_default = elim default_language [
    | none ↦ (none, none)
    | some language ↦ try_values (lookup_candidates language)
  ]

  unfoldable pub without_preference : Selected
  without_preference = elim (nonblank default) [
    | some value ↦ (some value, default_language)
    | none ↦ without_default
  ]

  unfoldable pub select_text : List Text → Selected
  select_text preferences = elim (try_preferences preferences) [
    | some selected ↦ selected
    | none ↦ without_preference
  ]
