-- ===== src/Parser/Fields/Rendered.antt =====
-- A compact line: several fields, separated by spaces.
use scriptmetakit.Chars.Trim.{trim_space}
use scriptmetakit.Chars.{
  Text, trim, trim_start, trim_end, is_whitespace, eq_ignore_ascii_case, to_ascii_lowercase,
  ascii_lower, text_eq,
}
use scriptmetakit.Parser.Blocks.{starts_with_marker}
use scriptmetakit.Parser.Fields.Spaces.{
  IsKey, boundaries_behind_words, boundaries_in_words, boundaries_in_key,
}
use scriptmetakit.Parser.Fields.{
  script_metadata_keys, distribution_metadata_keys, metadata_value_start, metadata_field_at,
  field_here, Boundary, add_boundary, boundaries_from, find_metadata_field_boundaries, value_until,
  fields_of, calls, for_each_metadata_field, inline_field, contains_inline_metadata_field_raw,
  split_key_value, is_separator,
}
use scriptmetakit.Prelude.{
  suc, ◌-◌, Bool, true, false, List, [], ◌∷◌, ◌++◌, none, some, if◌then◌else◌, length, take,
  length-append, map, All, Elem, All-Elem, append-nil, ◌≡◌, refl, ap, ◌∙◌, arith,
}

-- `key=value key=value …`
abbrev pub spaced : List (Text × Text) → Text → Text
spaced [] later = []
spaced (_ ∷ _) later = b' ' ∷ later

abbrev pub render : List (Text × Text) → Text
render [] = []
render ((key, value) ∷ rest) = key ++ (b'=' ∷ (value ++ spaced rest (render rest)))

take_front : (s u : Text) → take (suc (length s)) (s ++ (b' ' ∷ u)) ≡ s ++ b' ' ∷ []
take_front [] u = refl
take_front (c ∷ s) u = ap (λ l. c ∷ l) (take_front s u)

take_until :
    (value t : Text)
    → take (length (value ++ (b' ' ∷ t)) - length t) (value ++ (b' ' ∷ t)) ≡ value ++ b' ' ∷ []
take_until value t =
    let size : length (value ++ (b' ' ∷ t)) - length t ≡ suc (length value) =
      omega (arith, length-append value (b' ' ∷ t)) in
    rw size (take_front value t)

-- A key that is found where a field begins.
abbrev IsFound : List Text → Text → Type 0
IsFound keys key =
    IsKey key
    × (trim key ≡ key)
    × ((rest : Text) → metadata_field_at keys (key ++ (b'=' ∷ rest)) ≡ some (key, rest))

-- A field with a key of the list, and a value in which no field begins.
abbrev IsPlain : List Text → Text × Text → Type 0
IsPlain keys (key, value) = IsFound keys key × (inline_field keys false value ≡ false)

abbrev pub tidy : Text × Text → Text × Text
tidy (key, value) = (key, trim value)

abbrev mark : Text × Text → List (Text × Text) → Boundary
mark (key, value) rest = record {
  from_key = render ((key, value) ∷ rest);
  key = key;
  from_value = value ++ spaced rest (render rest);
}

abbrev marks : List (Text × Text) → List Boundary
marks [] = []
marks (field ∷ rest) = mark field rest ∷ marks rest

render_begins_with_key :
    (keys : List Text) (field : Text × Text) (rest : List (Text × Text))
    → IsPlain keys field
    → metadata_value_start (render (field ∷ rest)) ≡ none
unfolding metadata_value_start
render_begins_with_key keys ([], value) rest ((bad, _, _), _) = absurd bad
render_begins_with_key keys (c ∷ key, value) rest ((good, _, _), _) =
    let inside : is_whitespace c ≡ false = ground (arith, good) in
    let joined : is_separator c ≡ false = ground (arith, good) in
    rw (inside, metadata_value_start) (rw joined refl)

module _ (keys : List Text) (keyed : All IsKey keys) where
  -- The line begins with the key: its boundary, and then those in what follows the `=`.
  boundaries_at_key :
      (key rest : Text)
      → IsFound keys key
      → boundaries_from keys true (key ++ (b'=' ∷ rest))
        ≡ record { from_key = key ++ (b'=' ∷ rest); key = key; from_value = rest }
          ∷ boundaries_from keys false rest
  unfolding boundaries_from add_boundary field_here
  boundaries_at_key [] rest (bad, _, found) = absurd bad
  boundaries_at_key (c ∷ key) rest (good, _, found) =
      let inside : is_whitespace c ≡ false = ground (arith, good) in
      rw (found rest, boundaries_from)
        (rw inside (rw (boundaries_in_key keys key rest (ground (arith, good))) refl))

  boundaries-render :
      (fields : List (Text × Text))
      → All (IsPlain keys) fields
      → boundaries_from keys true (render fields) ≡ marks fields
  unfolding boundaries_from
  boundaries-render [] h = refl
  boundaries-render ((key, value) ∷ []) ((found, plain), h) =
      boundaries_at_key key (value ++ []) found
      ∙ ap (λ l. mark (key, value) [] ∷ l)
          (rw (append-nil value) (boundaries_in_words keys false value plain))
  boundaries-render ((key, value) ∷ field ∷ rest) ((found, plain), h) =
      boundaries_at_key key (value ++ (b' ' ∷ render (field ∷ rest))) found
      ∙ ap (λ l. mark (key, value) (field ∷ rest) ∷ l)
          (boundaries_behind_words keys false value (render (field ∷ rest)) keyed plain
              (render_begins_with_key keys field rest h.0)
            ∙ boundaries-render (field ∷ rest) h)

  fields_of-marks :
      (fields : List (Text × Text))
      → All (IsPlain keys) fields
      → fields_of (marks fields) ≡ map tidy fields
  unfolding fields_of value_until
  fields_of-marks [] h = refl
  fields_of-marks ((key, value) ∷ []) (((_, bare, _), _), h) = rw bare (rw (append-nil value) refl)
  fields_of-marks ((key, value) ∷ field ∷ rest) (((_, bare, _), _), h) = rw bare (
      rw (take_until value (render (field ∷ rest)))
        (rw (trim_space value) (rw (fields_of-marks (field ∷ rest) h) refl)))

  for_each_metadata_field-plain :
      (fields : List (Text × Text))
      → All (IsPlain keys) fields
      → for_each_metadata_field (render fields) keys ≡ map tidy fields
  unfolding for_each_metadata_field calls find_metadata_field_boundaries split_key_value
      boundaries_from
  for_each_metadata_field-plain [] h = refl
  for_each_metadata_field-plain (field ∷ rest) h =
      rw (boundaries-render (field ∷ rest) h, for_each_metadata_field)
        (fields_of-marks (field ∷ rest) h)

-- Computed for each of the keys.
script_metadata_keys-IsFound : All (IsFound script_metadata_keys) script_metadata_keys
unfolding metadata_field_at metadata_value_start starts_with_marker eq_ignore_ascii_case
    to_ascii_lowercase text_eq trim trim_start trim_end is_whitespace ascii_lower
script_metadata_keys-IsFound = (
  (refl, refl, λ rest. refl),
  (
    (refl, refl, λ rest. refl),
    (
      (refl, refl, λ rest. refl),
      (
        (refl, refl, λ rest. refl),
        (
          (refl, refl, λ rest. refl),
          (
            (refl, refl, λ rest. refl),
            (
              (refl, refl, λ rest. refl),
              (
                (refl, refl, λ rest. refl),
                (
                  (refl, refl, λ rest. refl),
                  (
                    (refl, refl, λ rest. refl),
                    (
                      (refl, refl, λ rest. refl),
                      ((refl, refl, λ rest. refl), ((refl, refl, λ rest. refl), tt)),
                    ),
                  ),
                ),
              ),
            ),
          ),
        ),
      ),
    ),
  ),
)

distribution_metadata_keys-IsFound :
    All (IsFound distribution_metadata_keys) distribution_metadata_keys
unfolding metadata_field_at metadata_value_start starts_with_marker eq_ignore_ascii_case
    to_ascii_lowercase text_eq trim trim_start trim_end is_whitespace ascii_lower
distribution_metadata_keys-IsFound = (
  (refl, refl, λ rest. refl),
  (
    (refl, refl, λ rest. refl),
    (
      (refl, refl, λ rest. refl),
      (
        (refl, refl, λ rest. refl),
        (
          (refl, refl, λ rest. refl),
          (
            (refl, refl, λ rest. refl),
            ((refl, refl, λ rest. refl), ((refl, refl, λ rest. refl), tt)),
          ),
        ),
      ),
    ),
  ),
)

abbrev pub format_keys : Bool → List Text
format_keys distribution = if distribution then distribution_metadata_keys else script_metadata_keys

format_keys-IsFound :
    (distribution : Bool) → All (IsFound (format_keys distribution)) (format_keys distribution)
format_keys-IsFound true = distribution_metadata_keys-IsFound
format_keys-IsFound false = script_metadata_keys-IsFound

raw_inline :
    (value : Text) (distribution : Bool)
    → inline_field (format_keys distribution) false value
      ≡ contains_inline_metadata_field_raw value distribution
unfolding inline_field contains_inline_metadata_field_raw field_here
raw_inline [] distribution = refl
raw_inline (c ∷ value) distribution = refl

-- A key of the format, and a value that holds no field of the format itself.
abbrev pub IsField : Bool → Text × Text → Type 0
IsField distribution (key, value) =
    Elem key (format_keys distribution)
    × (contains_inline_metadata_field_raw value distribution ≡ false)

IsFound-IsKey : (keys some_keys : List Text) → All (IsFound keys) some_keys → All IsKey some_keys
IsFound-IsKey keys [] h = tt
IsFound-IsKey keys (key ∷ rest) ((good, _, _), h) = (good, IsFound-IsKey keys rest h)

IsField-IsPlain :
    (distribution : Bool) (fields : List (Text × Text))
    → All (IsField distribution) fields
    → All (IsPlain (format_keys distribution)) fields
IsField-IsPlain distribution [] h = tt
IsField-IsPlain distribution ((key, value) ∷ rest) ((known, plain), h) = (
  (
    All-Elem (IsFound (format_keys distribution)) (format_keys distribution) key
        (format_keys-IsFound distribution) known,
    raw_inline value distribution ∙ plain,
  ),
  IsField-IsPlain distribution rest h,
)

-- A compact line of any number of fields, written as key, `=` and value with a space between two
-- fields, is read as these fields with their values trimmed, if the keys are of the format (a
-- script's or a distribution page's) and no value holds a field of the format itself.
pub for_each_metadata_field-render :
    (distribution : Bool) (fields : List (Text × Text))
    → All (IsField distribution) fields
    → for_each_metadata_field (render fields) (format_keys distribution) ≡ map tidy fields
for_each_metadata_field-render distribution fields h =
    for_each_metadata_field-plain (format_keys distribution)
      (IsFound-IsKey (format_keys distribution) (format_keys distribution)
        (format_keys-IsFound distribution))
      fields (IsField-IsPlain distribution fields h)
