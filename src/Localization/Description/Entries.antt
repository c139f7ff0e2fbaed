-- ===== src/Localization/Description/Entries.antt =====
-- What stands in the map of `description_translations`.
use scriptmetakit.Chars.Blank.{HasText, HasText-append}
use scriptmetakit.Chars.{Text, trim, trim_start, is_empty, text_eq}
use scriptmetakit.Errors.{ok, Result-cases}
use scriptmetakit.Chars.Lines.{lines}
use scriptmetakit.Localization.Description.{
  Translations, append_value, entry, put, Sections, add_body, flush, boundary, canonical_label,
  collect_sections, canonical_default, description_translations, normalized_newlines,
  description_label,
}
use scriptmetakit.Localization.Diagnostics.{MetadataDiagnostic}
use scriptmetakit.Localization.Preferences.{LanguageTags, normalize_language_tag}
use scriptmetakit.Prelude.{
  List, [], ◌∷◌, ◌++◌, Option, none, some, ◌≡◌, ap, ◌∙◌, subst, All, Bool-cases, Option-cases, inl,
  inr, some_inj, any, is_some,
}

append_value-HasText :
    (target body separator : Text) → HasText body → HasText (append_value target body separator)
unfolding append_value
append_value-HasText target body separator h = elim (Bool-cases (is_empty target)) [
  | inl e ↦ rw (h, append_value) (rw (e, append_value) h)
  | inr e ↦
      rw (h, append_value) (rw (e, append_value) (HasText-append (target ++ separator) body h))
]

module _ (tags : LanguageTags) where
  -- The canonical form of some tag.
  abbrev pub IsCanonical : Text → Type 0
  IsCanonical language = (raw : Text) × (normalize_language_tag tags raw ≡ ok language)

  abbrev pub IsEntry : Text × Text → Type 0
  IsEntry e = IsCanonical (e.0) × HasText (e.1)

  put-IsEntry :
      (language value : Text) (t : Translations)
      → IsCanonical language
      → HasText value
      → All IsEntry t
      → All IsEntry (put language value t)
  unfolding put
  put-IsEntry language value [] c h t = ((c, h), tt)
  put-IsEntry language value ((key, old) ∷ rest) c h t = elim (Bool-cases (text_eq key language)) [
    | inl e ↦ rw (e, put) ((t.0.0, h), t.1)
    | inr e ↦ rw (e, put) (t.0, put-IsEntry language value rest c h t.1)
  ]

  add_body-IsEntry :
      (language body : Text) (s : Sections)
      → IsCanonical language
      → All IsEntry s.result
      → All IsEntry (add_body language body s).result
  unfolding add_body
  add_body-IsEntry language body s c h = elim (Bool-cases (is_empty (trim body))) [
    | inl e ↦ rw (e, add_body) h
    | inr e ↦
        rw (e, add_body)
          (put-IsEntry language (append_value (entry s.result language) body (0xa ∷ 0xa ∷ []))
            s.result c (append_value-HasText (entry s.result language) body (0xa ∷ 0xa ∷ []) e) h)
  ]

  boundary-IsCanonical :
      (line language value : Text)
      → boundary tags line ≡ some (language, value)
      → IsCanonical language
  unfolding boundary canonical_label
  boundary-IsCanonical line language value h =
      elim (Option-cases (description_label (trim_start line))) [
        | inl e ↦ let q = (rw (e, boundary) at h) in cc
        | inr ((raw, after), e) ↦ elim (Result-cases (normalize_language_tag tags raw)) [
          | inr (x, f) ↦ let q = (rw (f, canonical_label) at (rw (e, boundary) at h)) in cc
          | inl (l, f) ↦
              let q = some_inj (rw (f, canonical_label) at (rw (e, boundary) at h)) in
              (raw, f ∙ ap (λ p. ok p.0) q)
        ]
      ]

  collect_sections-IsEntry :
      (current : Text) (pending : List Text) (s : Sections) (rest : List Text)
      → IsCanonical current
      → All IsEntry s.result
      → All IsEntry (collect_sections tags current pending s rest).result
  unfolding collect_sections flush
  collect_sections-IsEntry current pending s [] c h = add_body-IsEntry current _ s c h
  collect_sections-IsEntry current pending s (line ∷ rest) c h =
      elim (Option-cases (boundary tags line)) [
        | inl e ↦
            rw (e, collect_sections)
              (collect_sections-IsEntry current (pending ++ line ∷ []) s rest c h)
        | inr ((language, value), e) ↦
            rw (e, collect_sections)
              (collect_sections-IsEntry language _ (flush current pending s) rest
                (boundary-IsCanonical line language value e) (add_body-IsEntry current _ s c h))
      ]

  default-IsCanonical :
      (o : Option Text) (language : Text)
      → canonical_default tags o ≡ some language
      → IsCanonical language
  unfolding canonical_default
  default-IsCanonical none language h = cc
  default-IsCanonical (some raw) language h =
      elim (Result-cases (normalize_language_tag tags raw)) [
        | inr (x, f) ↦ let q = (rw (f, canonical_default) at h) in cc
        | inl (l, f) ↦ (raw, f ∙ ap ok (some_inj (rw (f, canonical_default) at h)))
      ]

  -- Every translation that is found in a description has the canonical form of a tag as its
  -- language, and a text that is not blank.
  pub description_translations-IsEntry :
      (body : Text) (default_language : Option Text) (diagnostics : List MetadataDiagnostic)
      (t : Translations)
      → (description_translations tags body default_language diagnostics).0 ≡ some t
      → All IsEntry t
  unfolding description_translations
  description_translations-IsEntry body default_language diagnostics t h =
      elim (Option-cases (canonical_default tags default_language)) [
        | inl e ↦ let q = (rw (e, description_translations) at h) in cc
        | inr (language, e) ↦
            let body_lines = lines (normalized_newlines body) in
            elim (Bool-cases (any (λ line. is_some (boundary tags line)) body_lines)) [
              | inr f ↦ let q = (rw (e, f, description_translations) at h) in cc
              | inl f ↦ subst (All IsEntry) (some_inj (rw (e, f, description_translations) at h)) (
                  collect_sections-IsEntry language [] _ body_lines
                    (default-IsCanonical default_language language e) tt)
            ]
      ]
