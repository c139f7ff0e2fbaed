-- ===== src/Parser/Fields/Spaces.antt =====
-- A field of a line is not found across a space: neither its key nor its separator.
use scriptmetakit.Chars.{
  Text, is_whitespace, eq_ignore_ascii_case, to_ascii_lowercase, ascii_lower, text_eq,
}
use scriptmetakit.Parser.Blocks.{starts_with_marker}
use scriptmetakit.Parser.Fields.{
  is_separator, metadata_value_start, metadata_field_at, field_here, add_boundary, boundaries_from,
  inline_field,
}
use scriptmetakit.Prelude.{
  ℕ, Bool, true, false, not, ◌&&◌, List, [], ◌∷◌, ◌++◌, none, ◌==◌, is_some, length, drop, all, All,
  ◌≡◌, refl, ap, ◌∙◌, Bool-cases, Option-cases, inl, inr, arith,
}

-- A character that a key can hold.
abbrev pub key_char : ℕ → Bool
key_char c = not (is_whitespace c) && not (is_separator c)

-- A key: some characters, none of which is white space or a separator.
abbrev pub IsKey : Text → Type 0
IsKey [] = ⊥
IsKey (c ∷ key) = all key_char (c ∷ key) ≡ true

marker_step :
    (m c : ℕ) (marker s : Text)
    → starts_with_marker (m ∷ marker) (c ∷ s)
      ≡ ((ascii_lower c == ascii_lower m) && starts_with_marker marker s)
unfolding starts_with_marker eq_ignore_ascii_case to_ascii_lowercase text_eq
marker_step m c marker s = refl

not_space : (m : ℕ) → key_char m ≡ true → (ascii_lower b' ' == ascii_lower m) ≡ false
unfolding ascii_lower is_whitespace
not_space m h = ground (arith, h)

marker_before_space :
    (key s t : Text)
    → all key_char key ≡ true
    → starts_with_marker key (s ++ b' ' ∷ t) ≡ starts_with_marker key s
unfolding starts_with_marker eq_ignore_ascii_case to_ascii_lowercase text_eq
marker_before_space [] s t h = refl
marker_before_space (m ∷ key) [] t h =
    marker_step m b' ' key t
    ∙ ap (λ b. b && starts_with_marker key t) (not_space m (ground (arith, h)))
marker_before_space (m ∷ key) (c ∷ s) t h =
    ap (λ b. (ascii_lower c == ascii_lower m) && b)
      (marker_before_space key s t (ground (arith, h)))

drop_marker :
    (key s t : Text)
    → starts_with_marker key s ≡ true
    → drop (length key) (s ++ t) ≡ drop (length key) s ++ t
unfolding starts_with_marker eq_ignore_ascii_case to_ascii_lowercase text_eq
drop_marker [] s t h = refl
drop_marker (m ∷ key) [] t h = cc
drop_marker (m ∷ key) (c ∷ s) t h = drop_marker key s t (ground (arith, h))

value_before_space :
    (s t : Text)
    → metadata_value_start s ≡ none
    → metadata_value_start t ≡ none
    → metadata_value_start (s ++ b' ' ∷ t) ≡ none
unfolding metadata_value_start is_whitespace
value_before_space [] t h k = k
value_before_space (c ∷ s) t h k = elim (Bool-cases (is_whitespace c)) [
  | inl e ↦
      rw (e, metadata_value_start) (value_before_space s t (rw (e, metadata_value_start) at h) k)
  | inr e ↦ elim (Bool-cases (is_separator c)) [
    | inl l ↦ let q = (rw (e, l, metadata_value_start) at h) in cc
    | inr l ↦ rw (e, l, metadata_value_start) refl
  ]
]

-- A text that does not begin with a field does not begin with one before a space either, if what
-- follows the space does not begin with a separator.
field_before_space :
    (keys : List Text) (s t : Text)
    → All IsKey keys
    → metadata_field_at keys s ≡ none
    → metadata_value_start t ≡ none
    → metadata_field_at keys (s ++ b' ' ∷ t) ≡ none
unfolding metadata_field_at
field_before_space [] s t keyed h k = refl
field_before_space ([] ∷ keys) s t (bad, keyed) h k = absurd bad
field_before_space ((m ∷ key) ∷ keys) s t (good, keyed) h k =
    rw (marker_before_space (m ∷ key) s t good, metadata_field_at)
      (elim (Bool-cases (starts_with_marker (m ∷ key) s)) [
        | inr e ↦ rw e (field_before_space keys s t keyed (rw (e, metadata_field_at) at h) k)
        | inl e ↦ elim (Option-cases (metadata_value_start (drop (length (m ∷ key)) s))) [
          | inr (value, l) ↦ let q = (rw (e, l, metadata_field_at) at h) in cc
          | inl l ↦ rw e (
              rw (drop_marker (m ∷ key) s (b' ' ∷ t) e)
                (rw (value_before_space (drop (length (m ∷ key)) s) t l k) refl))
        ]
      ])

space_begins_no_field :
    (keys : List Text) (t : Text) → All IsKey keys → metadata_field_at keys (b' ' ∷ t) ≡ none
unfolding metadata_field_at
space_begins_no_field [] t keyed = refl
space_begins_no_field ([] ∷ keys) t (bad, keyed) = absurd bad
space_begins_no_field ((m ∷ key) ∷ keys) t (good, keyed) =
    rw (marker_step m b' ' key t, metadata_field_at)
      (rw (not_space m (ground (arith, good))) (space_begins_no_field keys t keyed))

field_here_space :
    (keys : List Text) (flag : Bool) (t : Text)
    → All IsKey keys
    → field_here keys flag (b' ' ∷ t) ≡ none
unfolding field_here
field_here_space keys true t keyed = space_begins_no_field keys t keyed
field_here_space keys false t keyed = refl

here_before_space :
    (keys : List Text) (flag : Bool) (s t : Text)
    → All IsKey keys
    → is_some (field_here keys flag s) ≡ false
    → metadata_value_start t ≡ none
    → field_here keys flag (s ++ b' ' ∷ t) ≡ none
unfolding field_here
here_before_space keys false s t keyed h k = refl
here_before_space keys true s t keyed h k = elim (Option-cases (metadata_field_at keys s)) [
  | inl e ↦ field_before_space keys s t keyed e k
  | inr (f, e) ↦ let q = (rw e at h) in cc
]

-- The boundaries of a line whose first words hold no field are those behind the words.
pub boundaries_behind_words :
    (keys : List Text) (flag : Bool) (s t : Text)
    → All IsKey keys
    → inline_field keys flag s ≡ false
    → metadata_value_start t ≡ none
    → boundaries_from keys flag (s ++ b' ' ∷ t) ≡ boundaries_from keys true t
unfolding boundaries_from inline_field add_boundary is_whitespace
boundaries_behind_words keys flag [] t keyed h k = rw (field_here_space keys flag t keyed) refl
boundaries_behind_words keys flag (c ∷ s) t keyed h k =
    rw (here_before_space keys flag (c ∷ s) t keyed (ground (arith, h)) k, boundaries_from)
      (boundaries_behind_words keys (is_whitespace c) s t keyed (ground (arith, h)) k)

pub boundaries_in_words :
    (keys : List Text) (flag : Bool) (s : Text)
    → inline_field keys flag s ≡ false
    → boundaries_from keys flag s ≡ []
unfolding boundaries_from inline_field add_boundary
boundaries_in_words keys flag [] h = refl
boundaries_in_words keys flag (c ∷ s) h = elim (Option-cases (field_here keys flag (c ∷ s))) [
  | inl e ↦
      rw (e, boundaries_from) (boundaries_in_words keys (is_whitespace c) s (ground (arith, h)))
  | inr (f, e) ↦ let q = (rw (e, inline_field) at h) in cc
]

-- A key holds no boundary behind its first character.
pub boundaries_in_key :
    (keys : List Text) (key s : Text)
    → all key_char key ≡ true
    → boundaries_from keys false (key ++ b'=' ∷ s) ≡ boundaries_from keys false s
unfolding boundaries_from add_boundary field_here is_whitespace
boundaries_in_key keys [] s h = refl
boundaries_in_key keys (c ∷ key) s h =
    let inside : is_whitespace c ≡ false = ground (arith, h) in
    rw (inside, boundaries_from) (boundaries_in_key keys key s (ground (arith, h)))
