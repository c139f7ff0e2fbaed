-- ===== src/Chars/Search.antt =====
-- Searching in texts, as the source uses Rust's standard library.
use scriptmetakit.Chars.{Text, text_eq, strip_prefix, eq_ignore_ascii_case}
use scriptmetakit.Prelude.{
  ℕ, suc, Bool, false, ◌||◌, List, [], ◌∷◌, Option, none, some, ◌==◌, if◌then◌else◌, is_some,
  length, take,
}

-- `u8::is_ascii_whitespace`.
unfoldable pub is_ascii_whitespace : ℕ → Bool
is_ascii_whitespace c = c == 0x20 || c == 0x9 || c == 0xa || c == 0xc || c == 0xd

-- `str::find` of one character.
unfoldable pub find_char : ℕ → Text → Option ℕ
find_char c [] = none
find_char c (x ∷ s) =
    let later = find_char c s in
    if x == c then some 0 else elim later [ none ↦ none | some i ↦ some (suc i) ]

-- `str::split_once` at one character.
unfoldable pub split_once : ℕ → Text → Option (Text × Text)
split_once c [] = none
split_once c (x ∷ s) =
    let later = split_once c s in
    if x == c
    then some ([], s)
    else elim later [ none ↦ none | some (before, after) ↦ some (x ∷ before, after) ]

unfoldable pub consed : ℕ → List Text → List Text
consed x [] = (x ∷ []) ∷ []
consed x (part ∷ parts) = (x ∷ part) ∷ parts

-- `str::split` at one character: one part at least.
unfoldable pub split : ℕ → Text → List Text
unfolding consed
split c [] = [] ∷ []
split c (x ∷ s) = let later = split c s in if x == c then [] ∷ later else consed x later

-- `str::strip_suffix`.
unfoldable pub strip_suffix : Text → Text → Option Text
strip_suffix [] [] = some []
strip_suffix [] (p ∷ ps) = none
strip_suffix (c ∷ s) suffix =
    let later = strip_suffix s suffix in
    if text_eq (c ∷ s) suffix
    then some []
    else elim later [ none ↦ none | some kept ↦ some (c ∷ kept) ]

-- `str::contains` of a text.
unfoldable pub contains_text : Text → Text → Bool
contains_text [] pattern = is_some (strip_prefix [] pattern)
contains_text (c ∷ s) pattern = is_some (strip_prefix (c ∷ s) pattern) || contains_text s pattern

-- `windows(marker.len()).any(|part| part.eq_ignore_ascii_case(marker))`, for a marker that is not
-- empty. A shorter remainder equals no marker.
unfoldable pub any_window : Text → Text → Bool
any_window [] marker = false
any_window (c ∷ s) marker =
    eq_ignore_ascii_case (take (length marker) (c ∷ s)) marker || any_window s marker
