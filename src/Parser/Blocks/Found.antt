-- ===== src/Parser/Blocks/Found.antt =====
-- Where the blocks of src/core/parser.rs begin and end.
use scriptmetakit.Chars.{Text, eq_ignore_ascii_case, to_ascii_lowercase, text_eq}
use scriptmetakit.Parser.Blocks.{
  script_begin, script_end, starts_with_marker, find_ascii_case_insensitive, closed_body,
  script_metadata_body, custom_metadata_boundary_is_embedded,
}
use scriptmetakit.Prelude.{
  ℕ, true, false, [], ◌∷◌, ◌++◌, some, length, take, drop, ◌≡◌, ◌↔◌, refl, sym, ap, ◌∙◌, subst,
  Bool-cases, Option-cases, inl, inr, some_inj,
}

-- No occurrence of the marker begins in `before`, which `from` follows.
abbrev pub NoneBefore : Text → Text → Text → Type 0
NoneBefore marker [] from = Unit
NoneBefore marker (c ∷ before) from =
    (starts_with_marker marker (c ∷ (before ++ from)) ≡ false) × NoneBefore marker before from

-- The first occurrence of the marker, in any case, is at the front of `from`.
abbrev pub IsFirst : Text → Text → Text → Text → Type 0
IsFirst marker text before from =
    (text ≡ before ++ from)
    × (starts_with_marker marker from ≡ true)
    × NoneBefore marker before from

find_sound :
    (marker s before from : Text)
    → find_ascii_case_insensitive marker s ≡ some (before, from)
    → IsFirst marker s before from
unfolding find_ascii_case_insensitive
find_sound marker [] before from h = cc
find_sound marker (c ∷ s) before from h = elim (Bool-cases (starts_with_marker marker (c ∷ s))) [
  | inl e ↦
      let q = some_inj (rw (e, find_ascii_case_insensitive) at h) in
      let b = ap (λ p. p.0) q in
      let f = ap (λ p. p.1) q in
      subst (λ l. IsFirst marker (c ∷ s) l from) b
        (subst (λ l. IsFirst marker (c ∷ s) [] l) f (refl, e, tt))
  | inr e ↦ elim (Option-cases (find_ascii_case_insensitive marker s)) [
    | inl k ↦ let q = (rw (e, k, find_ascii_case_insensitive) at h) in cc
    | inr ((b, f), k) ↦
        let q = some_inj (rw (e, k, find_ascii_case_insensitive) at h) in
        let (split, here, none_before) = find_sound marker s b f k in
        let first : IsFirst marker (c ∷ s) (c ∷ b) f =
          (ap (λ l. c ∷ l) split, here, (rw (sym split) e, none_before)) in
        subst (λ l. IsFirst marker (c ∷ s) l from) (ap (λ p. p.0) q)
          (subst (λ l. IsFirst marker (c ∷ s) (c ∷ b) l) (ap (λ p. p.1) q) first)
  ]
]

starts_with_marker-nil : (m : ℕ) (marker : Text) → starts_with_marker (m ∷ marker) [] ≡ false
unfolding starts_with_marker eq_ignore_ascii_case to_ascii_lowercase text_eq
starts_with_marker-nil m marker = refl

find_complete :
    (m : ℕ) (marker before from : Text)
    → starts_with_marker (m ∷ marker) from ≡ true
    → NoneBefore (m ∷ marker) before from
    → find_ascii_case_insensitive (m ∷ marker) (before ++ from) ≡ some (before, from)
unfolding find_ascii_case_insensitive
find_complete m marker [] [] h k = let q = sym (starts_with_marker-nil m marker) ∙ h in cc
find_complete m marker [] (c ∷ s) h k = rw (h, find_ascii_case_insensitive) refl
find_complete m marker (c ∷ before) from h k =
    rw (k.0, find_ascii_case_insensitive) (rw (find_complete m marker before from h k.1) refl)

-- The body lies between the first begin marker and the first end marker behind it, and the line
-- that the end marker stands on is not one of custom metadata.
abbrev pub IsBlock : Text → Text → Type 0
IsBlock text body =
    (before from tail : Text) × IsFirst script_begin text before from
    × IsFirst script_end (drop (length script_begin) from) body tail
    × (custom_metadata_boundary_is_embedded ((before ++ take (length script_begin) from) ++ body)
        ≡ false)

body_sound : (text body : Text) → script_metadata_body text true ≡ some body → IsBlock text body
unfolding script_metadata_body closed_body
body_sound text body h = elim (Option-cases (find_ascii_case_insensitive script_begin text)) [
  | inl e ↦ let q = (rw (e, script_metadata_body) at h) in cc
  | inr ((before, from), e) ↦
      let rest = drop (length script_begin) from in
      let front = before ++ take (length script_begin) from in
      elim (Option-cases (find_ascii_case_insensitive script_end rest)) [
        | inl k ↦ let q = (rw (e, k, script_metadata_body) at h) in cc
        | inr ((b, tail), k) ↦
            elim (Bool-cases (custom_metadata_boundary_is_embedded (front ++ b))) [
              | inl m ↦ let q = (rw (e, k, m, script_metadata_body) at h) in cc
              | inr m ↦
                  let q = some_inj (rw (e, k, m, script_metadata_body) at h) in
                  subst (IsBlock text) q (
                    before,
                    from,
                    tail,
                    find_sound script_begin text before from e,
                    find_sound script_end rest b tail k,
                    m,
                  )
            ]
      ]
]

body_complete : (text body : Text) → IsBlock text body → script_metadata_body text true ≡ some body
unfolding script_metadata_body closed_body
body_complete text body
      (before, from, tail, (split, begins, no_begin), (inside, ends, no_end), kept) =
    rw split (
      rw (find_complete _ _ before from begins no_begin, script_metadata_body)
        (rw inside (
          rw (find_complete _ _ body tail ends no_end, script_metadata_body)
            (rw (kept, closed_body) refl))))

-- With closed blocks required, a text has a metadata body exactly if the text between the first
-- begin marker and the first end marker behind it is that body, and the end marker does not stand
-- on a line of custom metadata.
pub script_metadata_body_iff :
    (text body : Text) → (script_metadata_body text true ≡ some body) ↔ IsBlock text body
script_metadata_body_iff text body = (body_sound text body, body_complete text body)
