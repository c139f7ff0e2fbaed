-- ===== src/Parser/Distribution/Ids.antt =====
-- Every entry of a distribution page has a script id.
use scriptmetakit.Chars.Lines.{lines}
use scriptmetakit.Chars.{Text, trim, is_empty}
use scriptmetakit.Errors.{ok, ok_inj, Result-cases}
use scriptmetakit.Parser.Blocks.{clean_metadata_line}
use scriptmetakit.Parser.Distribution.{
  optional_version_value, optional_url_value, DistributionMetadataFields, no_fields,
  DistributionMetadata, distribution_metadata_from_fields, Entries, next_entry, add_field,
  add_nonblank, add_fields, add_line, add_lines, finish, parse_distribution_entries, is_script_id,
  blank_field,
}
use scriptmetakit.Parser.Fields.{for_each_metadata_field, distribution_metadata_keys}
use scriptmetakit.Parser.Urls.{UrlCrate}
use scriptmetakit.Prelude.{
  true, ◌&&◌, List, [], ◌∷◌, none, some, is_some, All, All-concat, ◌≡◌, sym, ap, ◌∙◌, subst,
  Bool-cases, inl, inr, arith,
}

module _ (crate : UrlCrate) where
  abbrev pub HasId : DistributionMetadata crate → Type 0
  HasId entry = is_some entry.script_id ≡ true

  from_fields-script_id :
      (fields : DistributionMetadataFields) (entry : DistributionMetadata crate)
      → distribution_metadata_from_fields crate fields ≡ ok entry
      → entry.script_id ≡ fields.script_id
  unfolding distribution_metadata_from_fields
  from_fields-script_id fields entry h =
      elim (Result-cases (
        optional_version_value
          (elim fields.version [ some v ↦ some v | none ↦ fields.latest_version ]))) [
            | inr (x, e) ↦ let q = (rw (e, distribution_metadata_from_fields) at h) in cc
            | inl (version, e) ↦ elim (Result-cases (optional_url_value crate fields.latest_url)) [
              | inr (x, k) ↦ let q = (rw (e, k, distribution_metadata_from_fields) at h) in cc
              | inl (url, k) ↦
                  elim (Result-cases (optional_url_value crate fields.latest_page_url)) [
                    | inr (x, l) ↦
                        let q = (rw (e, k, l, distribution_metadata_from_fields) at h) in cc
                    | inl (page, l) ↦ sym (
                        ap (λ e. e.script_id)
                          (ok_inj (rw (e, k, l, distribution_metadata_from_fields) at h)))
                  ]
            ]
          ]

  next_entry-HasId :
      (e f : Entries crate)
      → is_some e.fields.script_id ≡ true
      → All HasId e.entries
      → next_entry crate e ≡ ok f
      → All HasId f.entries
  unfolding next_entry
  next_entry-HasId e f named h k =
      elim (Result-cases (distribution_metadata_from_fields crate e.fields)) [
        | inr (x, l) ↦ let q = (rw (l, next_entry) at k) in cc
        | inl (entry, l) ↦
            let id = from_fields-script_id e.fields entry l in
            subst (λ g. All HasId g.entries) (ok_inj (rw (l, next_entry) at k))
              (All-concat HasId e.entries entry h (ap is_some id ∙ named))
      ]

  add_field-HasId :
      (key value : Text) (e f : Entries crate)
      → All HasId e.entries
      → add_field crate key value e ≡ ok f
      → All HasId f.entries
  unfolding add_field
  add_field-HasId key value e f h k =
      elim (Bool-cases (is_script_id key && is_some e.fields.script_id)) [
        | inr l ↦ subst (λ g. All HasId g.entries) (ok_inj (rw (l, add_field) at k)) h
        | inl l ↦ elim (Result-cases (next_entry crate e)) [
          | inr (x, m) ↦ let q = (rw (l, m, add_field) at k) in cc
          | inl (g, m) ↦
              subst (λ g. All HasId g.entries) (ok_inj (rw (l, m, add_field) at k))
                (next_entry-HasId e g (ground (arith, l)) h m)
        ]
      ]

  add_fields-HasId :
      (fields : List (Text × Text)) (e f : Entries crate)
      → All HasId e.entries
      → add_fields crate fields e ≡ ok f
      → All HasId f.entries
  unfolding add_fields add_nonblank
  add_fields-HasId [] e f h k = subst (λ g. All HasId g.entries) (ok_inj k) h
  add_fields-HasId ((key, value) ∷ rest) e f h k =
      elim (Bool-cases (blank_field (trim key) (trim value))) [
        | inl l ↦ add_fields-HasId rest e f h (rw (l, add_nonblank) at k)
        | inr l ↦ elim (Result-cases (add_field crate (trim key) (trim value) e)) [
          | inr (x, m) ↦ let q = (rw (l, m, add_nonblank) at k) in cc
          | inl (g, m) ↦
              add_fields-HasId rest g f (add_field-HasId (trim key) (trim value) e g h m)
                (rw (l, m, add_nonblank) at k)
        ]
      ]

  add_lines-HasId :
      (raw : List Text) (e f : Entries crate)
      → All HasId e.entries
      → add_lines crate raw e ≡ ok f
      → All HasId f.entries
  unfolding add_lines add_line
  add_lines-HasId [] e f h k = subst (λ g. All HasId g.entries) (ok_inj k) h
  add_lines-HasId (raw_line ∷ rest) e f h k =
      elim (Bool-cases (is_empty (clean_metadata_line raw_line))) [
        | inl l ↦ add_lines-HasId rest e f h (rw (l, add_line) at k)
        | inr l ↦
            let fields =
              for_each_metadata_field (clean_metadata_line raw_line) distribution_metadata_keys in
            elim (Result-cases (add_fields crate fields e)) [
              | inr (x, m) ↦ let q = (rw (l, m, add_line) at k) in cc
              | inl (g, m) ↦
                  add_lines-HasId rest g f (add_fields-HasId fields e g h m)
                    (rw (l, m, add_line) at k)
            ]
      ]

  finish-HasId :
      (e : Entries crate) (entries : List (DistributionMetadata crate))
      → All HasId e.entries
      → finish crate e ≡ ok entries
      → All HasId entries
  unfolding finish
  finish-HasId e entries h k = elim (Bool-cases (e.fields.has_any && is_some e.fields.script_id)) [
    | inr l ↦ subst (All HasId) (ok_inj (rw (l, finish) at k)) h
    | inl l ↦ elim (Result-cases (next_entry crate e)) [
      | inr (x, m) ↦ let q = (rw (l, m, finish) at k) in cc
      | inl (g, m) ↦
          subst (All HasId) (ok_inj (rw (l, m, finish) at k))
            (next_entry-HasId e g (ground (arith, l)) h m)
    ]
  ]

  -- Every record that is read from the body of a distribution block has a script id.
  pub parse_distribution_entries-HasId :
      (body : Text) (entries : List (DistributionMetadata crate))
      → parse_distribution_entries crate body ≡ ok entries
      → All HasId entries
  unfolding parse_distribution_entries
  parse_distribution_entries-HasId body entries k =
      elim (Result-cases
        (add_lines crate (lines body) (record { entries = []; fields = no_fields }))) [
          | inr (x, m) ↦ let q = (rw (m, parse_distribution_entries) at k) in cc
          | inl (g, m) ↦
              finish-HasId g entries (add_lines-HasId (lines body) _ g tt m)
                (rw (m, parse_distribution_entries) at k)
        ]
