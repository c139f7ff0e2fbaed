-- ===== src/Sections/WellFormed.antt =====
-- The well-formedness of the sections, which every step of `metadata_sections_inner` keeps.
use scriptmetakit.Chars.Distinct.{Distinct, Distinct-push_all, All-push_all}
use scriptmetakit.Chars.Lines.{lines}
use scriptmetakit.Chars.Search.{split, split_once}
use scriptmetakit.Chars.Trim.{trim_idem}
use scriptmetakit.Chars.{Text, codes, trim, is_empty, text_eq, text_eq_sound, eq_ignore_ascii_case}
use scriptmetakit.CustomMetadata.Keys.{normalize_custom_metadata_key}
use scriptmetakit.CustomMetadata.Selection.{CustomMetadataSelection, contains}
use scriptmetakit.Errors.{ok, Result-cases}
use scriptmetakit.Localization.Description.{normalized_newlines}
use scriptmetakit.Localization.Diagnostics.{limit, length-diagnostic}
use scriptmetakit.Localization.Tags.{item_separator}
use scriptmetakit.Prelude.{
  if_keeps, ℕ, suc, ◌≤◌, true, false, not, ◌&&◌, ◌||◌, List, [], ◌∷◌, map, filter, Option, none,
  some, is_some, length, All, All-concat, ◌≡◌, refl, sym, subst, Bool-cases, Option-cases, inl, inr,
  arith,
}
use scriptmetakit.Sections.Issues.{custom_metadata_issue}
use scriptmetakit.Sections.Items.{
  tags_item, set_default_language, default_language_item, plain_item, localized_name,
  localized_author, localized_item, item, item_line, plain_line, is_tag_text, line_in_tags,
  is_custom_line, outer_line, scan_line, scan_lines, note_unclosed, finish, metadata_sections_inner,
  metadata_sections_with_custom_fields,
}
use scriptmetakit.Sections.Lines.{
  infer_metadata_line_prefix, strip_metadata_line_prefix, localized_key, description_end_marker,
}
use scriptmetakit.Sections.Scan.{
  Scan, start, issue, tag_values, collect_tags, add_legacy, ends_description, note_repeated,
  close_result, close_description, description_line, push_custom, diagnostic_key, note_issue,
  add_custom, custom_field, custom_result, custom_line, tag_line, blank_tag_line, ignored_result,
  open_description,
}
use scriptmetakit.Sections.{CustomMetadataFields, MetadataSections}

-- A tag is trimmed and not empty.
abbrev pub IsTag : Text → Type 0
IsTag tag = (trim tag ≡ tag) × (is_empty tag ≡ false)

module _ (keys : CustomMetadataSelection) where
  -- A value of a custom field comes from a line with a selected key whose canonical form is that of
  -- the field, and from a value there is no issue with.
  abbrev pub IsCustomValue : Text → Text → Type 0
  IsCustomValue key value =
      (raw_key raw_value : Text) × (contains keys raw_key ≡ true)
      × (normalize_custom_metadata_key raw_key ≡ ok key)
      × (custom_metadata_issue raw_key raw_value ≡ none)
      × (trim raw_value ≡ value)

  abbrev pub IsCustomField : Text × List Text → Type 0
  IsCustomField (key, values) = All (IsCustomValue key) values

  -- The custom fields are such, at most 64 diagnostics are kept, and the tags are different tags.
  abbrev pub IsWellFormed : MetadataSections → Type 0
  IsWellFormed s =
      All IsCustomField s.custom_fields
      × (length s.diagnostics ≤ limit)
      × Distinct s.tags
      × All IsTag s.tags

  abbrev Keeps : Scan → Type 0
  Keeps s = IsWellFormed s.result

  issue-IsWellFormed :
      (code field : Text) (line : Option ℕ) (s : MetadataSections)
      → IsWellFormed s
      → IsWellFormed (issue code field line s)
  unfolding issue
  issue-IsWellFormed code field line s (custom, size, distinct, good) =
      (custom, length-diagnostic s.diagnostics code field none line size, distinct, good)

  push_custom-All :
      (key value : Text) (fields : CustomMetadataFields)
      → IsCustomValue key value
      → All IsCustomField fields
      → All IsCustomField (push_custom key value fields)
  unfolding push_custom
  push_custom-All key value [] h k = ((h, tt), tt)
  push_custom-All key value ((own, values) ∷ rest) h (good, k) =
      elim (Bool-cases (text_eq own key)) [
        | inl e ↦
            let same = sym (text_eq_sound own key e) in
            rw (e, push_custom)
              (
                All-concat (IsCustomValue own) values value good
                    (subst (λ l. IsCustomValue l value) same h),
                k,
              )
        | inr e ↦ rw (e, push_custom) (good, push_custom-All key value rest h k)
      ]

  trimmed_tags :
      (parts : List Text) → All IsTag (filter (λ part. not (is_empty part)) (map trim parts))
  trimmed_tags [] = tt
  trimmed_tags (part ∷ parts) = elim (Bool-cases (is_empty (trim part))) [
    | inl e ↦ rw e (trimmed_tags parts)
    | inr e ↦ rw e ((trim_idem part, e), trimmed_tags parts)
  ]

  collect_tags-IsTag :
      (value : Text) (tags : List Text)
      → Distinct tags × All IsTag tags
      → Distinct (collect_tags value tags) × All IsTag (collect_tags value tags)
  unfolding collect_tags tag_values
  collect_tags-IsTag value tags (distinct, good) = (
    Distinct-push_all tags _ distinct,
    All-push_all IsTag tags _ good (trimmed_tags (split b',' value)),
  )

  -- The steps.
  description_line-Keeps :
      (end raw : Text) (index : ℕ) (s : Scan) → Keeps s → Keeps (description_line end raw index s)
  unfolding description_line close_description close_result note_repeated
  description_line-Keeps end raw index s h =
      if_keeps Keeps (ends_description end (trim raw)) _ _
        (if_keeps IsWellFormed s.ignored_description _ _ h (
          if_keeps IsWellFormed (is_some s.result.raw_description) _ _
            (issue-IsWellFormed _ _ _ s.result h) h))
        h

  note_issue-IsWellFormed :
      (code : Option Text) (field : Text) (index : ℕ) (s : MetadataSections)
      → IsWellFormed s
      → IsWellFormed (note_issue code field index s)
  unfolding note_issue
  note_issue-IsWellFormed none field index s h = h
  note_issue-IsWellFormed (some code) field index s h = issue-IsWellFormed code field _ s h

  custom_field-IsWellFormed :
      (field : Text) (index : ℕ) (key value : Text) (s : MetadataSections)
      → IsWellFormed s
      → IsWellFormed (custom_field keys false field index key value s)
  unfolding custom_field add_custom
  custom_field-IsWellFormed field index key value s h =
      let noted = note_issue-IsWellFormed (custom_metadata_issue key value) field index s h in
      elim (Bool-cases (not (is_some (custom_metadata_issue key value)) && contains keys key)) [
        | inr e ↦ rw (e, custom_field) noted
        | inl e ↦ elim (Result-cases (normalize_custom_metadata_key key)) [
          | inr (x, k) ↦ rw (e, k, custom_field) noted
          | inl (canonical, k) ↦ elim (Option-cases (custom_metadata_issue key value)) [
            | inr (code, l) ↦ let q = (rw l at e) in cc
            | inl l ↦
                rw (e, k, custom_field)
                  (
                    push_custom-All canonical (trim value) _
                        (key, value, ground (arith, e), k, l, refl) noted.0,
                    noted.1,
                    noted.2,
                    noted.3,
                  )
          ]
        ]
      ]

  custom_result-IsWellFormed :
      (line : Text) (index : ℕ) (s : MetadataSections)
      → IsWellFormed s
      → IsWellFormed (custom_result keys false line index s)
  unfolding custom_result
  custom_result-IsWellFormed line index s h = elim (Option-cases (split_once b'=' line)) [
    | inl e ↦ rw (e, custom_result) (issue-IsWellFormed _ _ _ s h)
    | inr ((key, value), e) ↦
        rw (e, custom_result)
          (custom_field-IsWellFormed (diagnostic_key line) index (trim key) value s h)
  ]

  add_tags-IsWellFormed :
      (value : Text) (s : MetadataSections)
      → IsWellFormed s
      → IsWellFormed (record s { tags = collect_tags value s.tags })
  add_tags-IsWellFormed value s (custom, size, distinct, good) =
      let tags = collect_tags-IsTag value s.tags (distinct, good) in (custom, size, tags.0, tags.1)

  set_default_language-IsWellFormed :
      (key value : Text) (index : ℕ) (s : MetadataSections)
      → IsWellFormed s
      → IsWellFormed (set_default_language key value index s)
  unfolding set_default_language
  set_default_language-IsWellFormed key value index s h =
      if_keeps IsWellFormed (is_some s.default_language) _ _ (issue-IsWellFormed _ _ _ s h) h

  localized_item-Keeps :
      (raw key value : Text) (index : ℕ) (s : Scan)
      → Keeps s
      → Keeps (localized_item raw key value index s)
  unfolding localized_item localized_name localized_author add_legacy
  localized_item-Keeps raw key value index s h =
      elim (Option-cases (localized_key key (codes "Name"))) [
        | inr (language, e) ↦ rw (e, localized_item) h
        | inl e ↦ elim (Option-cases (localized_key key (codes "Author"))) [
          | inr (language, k) ↦ rw (e, k, localized_item) h
          | inl k ↦ rw (e, k, localized_item) h
        ]
      ]

  item-Keeps :
      (raw key value untrimmed : Text) (index : ℕ) (s : Scan)
      → Keeps s
      → Keeps (item raw key value untrimmed index s)
  unfolding item tags_item default_language_item plain_item add_legacy
  item-Keeps raw key value untrimmed index s h =
      if_keeps Keeps (eq_ignore_ascii_case key (codes "Tags")) _ _
        (add_tags-IsWellFormed value s.result h)
        (if_keeps Keeps (eq_ignore_ascii_case key (codes "Meta-Default-language")) _ _
          (if_keeps IsWellFormed (is_empty value) _ _ h
            (set_default_language-IsWellFormed key value index _ h))
          (if_keeps Keeps (eq_ignore_ascii_case key (codes "Description")) _ _ h (
            if_keeps Keeps
              (eq_ignore_ascii_case key (codes "Name") || eq_ignore_ascii_case key (codes "Author"))
              _ _ (if_keeps IsWellFormed (eq_ignore_ascii_case key (codes "Name")) _ _ h h)
              (localized_item-Keeps raw key untrimmed index s h))))

  item_line-Keeps :
      (raw line : Text) (index : ℕ) (s : Scan) → Keeps s → Keeps (item_line raw line index s)
  unfolding item_line add_legacy
  item_line-Keeps raw line index s h = elim (Option-cases (item_separator line)) [
    | inl e ↦ rw (e, item_line) h
    | inr (separator, e) ↦ rw (e, item_line) (item-Keeps raw _ _ _ index s h)
  ]

  plain_line-Keeps : (raw : Text) (index : ℕ) (s : Scan) → Keeps s → Keeps (plain_line raw index s)
  unfolding plain_line open_description ignored_result
  plain_line-Keeps raw index s h = elim (Option-cases (description_end_marker (trim raw))) [
    | inl e ↦ rw (e, plain_line) (item_line-Keeps raw (trim raw) index s h)
    | inr (end, e) ↦
        rw (e, plain_line)
          (if_keeps IsWellFormed (eq_ignore_ascii_case (trim raw) (codes "Description-BEGIN")) _ _ h
            (issue-IsWellFormed _ _ _ s.result h))
  ]

  line_in_tags-Keeps :
      (raw : Text) (index : ℕ) (s : Scan) → Keeps s → Keeps (line_in_tags raw index s)
  unfolding line_in_tags blank_tag_line tag_line
  line_in_tags-Keeps raw index s h = if_keeps Keeps (is_empty (trim raw)) _ _ h (
      if_keeps Keeps (is_tag_text (trim raw)) _ _ (add_tags-IsWellFormed (trim raw) s.result h)
        (plain_line-Keeps raw index (record s { in_tags = false }) h))

  outer_line-Keeps :
      (raw : Text) (index : ℕ) (s : Scan) → Keeps s → Keeps (outer_line keys false raw index s)
  unfolding outer_line custom_line
  outer_line-Keeps raw index s h =
      if_keeps Keeps (is_custom_line s.in_tags (trim raw)) _ _
        (custom_result-IsWellFormed (trim raw) index s.result h)
        (if_keeps Keeps s.in_tags _ _ (line_in_tags-Keeps raw index s h)
          (plain_line-Keeps raw index s h))

  -- Every line keeps the sections well-formed.
  pub scan_line-IsWellFormed :
      (raw : Text) (index : ℕ) (s : Scan)
      → IsWellFormed s.result
      → IsWellFormed (scan_line keys false raw index s).result
  unfolding scan_line
  scan_line-IsWellFormed raw index s h = elim (Option-cases s.description_end) [
    | inl e ↦ rw (e, scan_line) (outer_line-Keeps raw index s h)
    | inr (end, e) ↦ rw (e, scan_line) (description_line-Keeps end raw index s h)
  ]

  scan_lines-Keeps :
      (prefix : Option Text) (raw : List Text) (index : ℕ) (s : Scan)
      → Keeps s
      → Keeps (scan_lines keys false prefix raw index s)
  unfolding scan_lines
  scan_lines-Keeps prefix [] index s h = h
  scan_lines-Keeps prefix (raw_line ∷ rest) index s h =
      scan_lines-Keeps prefix rest (suc index) _
        (scan_line-IsWellFormed (strip_metadata_line_prefix raw_line prefix) index s h)

  finish-IsWellFormed : (s : Scan) → Keeps s → IsWellFormed (finish s)
  unfolding finish note_unclosed
  finish-IsWellFormed s h = elim (Option-cases s.description_end) [
    | inl e ↦ rw (e, finish) h
    | inr (end, e) ↦ rw (e, finish) (issue-IsWellFormed _ _ none s.result h)
  ]

  -- The sections of any body are well-formed: of custom fields only those that the consumer selected
  -- and that have no issue are kept, under their canonical keys and with trimmed values; there are at
  -- most 64 diagnostics; and the tags are trimmed, not empty and different from each other.
  pub metadata_sections_with_custom_fields-IsWellFormed :
      (body : Text) → IsWellFormed (metadata_sections_with_custom_fields body keys)
  unfolding metadata_sections_with_custom_fields metadata_sections_inner
  metadata_sections_with_custom_fields-IsWellFormed body = finish-IsWellFormed _ (
      scan_lines-Keeps (infer_metadata_line_prefix (normalized_newlines body))
        (lines (normalized_newlines body)) 0 start (tt, omega arith, tt, tt))
