-- ===== src/Sections/Protected.antt =====
-- A description block in a body: none of its lines is read as anything else.
use scriptmetakit.Chars.Lines.{join_lines}
use scriptmetakit.Chars.Search.{strip_suffix}
use scriptmetakit.Chars.{
  Text, codes, trim, text_eq, eq_ignore_ascii_case, to_ascii_lowercase, ascii_lower,
}
use scriptmetakit.CustomMetadata.Keys.{has_custom_metadata_prefix}
use scriptmetakit.CustomMetadata.Selection.{CustomMetadataSelection}
use scriptmetakit.Prelude.{
  ℕ, suc, ◌+◌, Bool, true, false, List, [], ◌∷◌, ◌++◌, map, append_assoc, append-nil, length,
  Option, none, some, All, ◌≡◌, refl, ap, ◌∙◌, arith,
}
use scriptmetakit.Sections.Items.{plain_line, outer_line, is_custom_line, scan_line, scan_lines}
use scriptmetakit.Sections.Lines.{strip_metadata_line_prefix, description_end_marker, end_of_key}
use scriptmetakit.Sections.Scan.{
  Scan, note_repeated, close_result, close_description, ends_description, description_line,
  open_description,
}
use scriptmetakit.Sections.{MetadataSections}

abbrev pub begin_marker : Text
begin_marker = codes "Description-BEGIN"

abbrev pub end_marker : Text
end_marker = codes "Description-END"

-- The state of the scan between two blocks.
abbrev pub outside : MetadataSections → List (Text × Bool) → Bool → Scan
outside result legacy ignored = record {
  result = result;
  legacy = legacy;
  in_tags = false;
  description_end = none;
  description_lines = [];
  ignored_description = ignored;
}

abbrev inside : MetadataSections → List (Text × Bool) → List Text → Scan
inside result legacy description_lines = record {
  result = result;
  legacy = legacy;
  in_tags = false;
  description_end = some end_marker;
  description_lines = description_lines;
  ignored_description = false;
}

begin_marker-end : description_end_marker begin_marker ≡ some end_marker
unfolding description_end_marker end_of_key strip_suffix text_eq
begin_marker-end = refl

begin_marker-custom : is_custom_line false begin_marker ≡ false
unfolding is_custom_line has_custom_metadata_prefix eq_ignore_ascii_case to_ascii_lowercase
    ascii_lower text_eq
begin_marker-custom = refl

begin_marker_supported : eq_ignore_ascii_case begin_marker begin_marker ≡ true
unfolding eq_ignore_ascii_case to_ascii_lowercase ascii_lower text_eq
begin_marker_supported = refl

ends_description-marker : (line : Text) → ends_description end_marker line ≡ text_eq line end_marker
unfolding ends_description text_eq
ends_description-marker line = refl

end_marker_ends : ends_description end_marker end_marker ≡ true
unfolding ends_description text_eq
end_marker_ends = refl

omega_zero : (index : ℕ) → index + 0 ≡ index
omega_zero index = omega arith

module _ (keys : CustomMetadataSelection) (editing : Bool) (prefix : Option Text) where
  -- The line without the comment prefix of the body.
  abbrev pub bare : Text → Text
  bare raw_line = strip_metadata_line_prefix raw_line prefix

  abbrev pub IsInside : Text → Type 0
  IsInside raw_line = text_eq (trim (bare raw_line)) end_marker ≡ false

  plain_begin :
      (raw : Text) (index : ℕ) (result : MetadataSections) (legacy : List (Text × Bool))
      (ignored : Bool)
      → trim raw ≡ begin_marker
      → plain_line raw index (outside result legacy ignored) ≡ inside result legacy []
  unfolding plain_line open_description
  plain_begin raw index result legacy ignored h =
      rw (h, plain_line) (rw begin_marker-end (rw (h, begin_marker_supported) refl))

  begin_line :
      (raw : Text) (index : ℕ) (result : MetadataSections) (legacy : List (Text × Bool))
      (ignored : Bool)
      → trim raw ≡ begin_marker
      → scan_line keys editing raw index (outside result legacy ignored) ≡ inside result legacy []
  unfolding scan_line outer_line
  begin_line raw index result legacy ignored h =
      rw (h, scan_line) (rw begin_marker-custom (plain_begin raw index result legacy ignored h))

  described : ℕ → List Text → MetadataSections → MetadataSections
  described index description_lines result = record (note_repeated index result) {
    raw_description = some (join_lines description_lines);
  }

  read_block :
      (raw : List Text) (end : Text) (index : ℕ) (result : MetadataSections)
      (legacy : List (Text × Bool)) (before : List Text)
      → All IsInside raw
      → trim (bare end) ≡ end_marker
      → scan_lines keys editing prefix (raw ++ end ∷ []) index (inside result legacy before)
        ≡ outside (described (index + length raw) (before ++ map bare raw) result) legacy false
  unfolding scan_lines scan_line description_line close_description close_result described
  read_block [] end index result legacy before h k =
      rw (k, scan_lines) (rw end_marker_ends (rw (append-nil before) (rw (omega_zero index) refl)))
  read_block (line ∷ raw) end index result legacy before (kept, h) k =
      rw (ends_description-marker (trim (bare line)) ∙ kept, scan_lines)
        (read_block raw end (suc index) result legacy (before ++ bare line ∷ []) h k
          ∙ ap
              (λ n.
                outside (described n ((before ++ bare line ∷ []) ++ map bare raw) result) legacy
                  false)
              (omega arith)
          ∙ ap (λ l. outside (described (index + length (line ∷ raw)) l result) legacy false)
              (append_assoc before (bare line ∷ []) (map bare raw)))

  -- A description block in the comment style of the body, outside of other blocks, becomes the
  -- description of the sections with its lines as they stand, and a second one is reported. No line
  -- of it is read as a field, a tag or custom metadata, or goes to the legacy body.
  pub scan_lines-block :
      (begin : Text) (raw : List Text) (end : Text) (index : ℕ) (result : MetadataSections)
      (legacy : List (Text × Bool)) (ignored : Bool)
      → trim (bare begin) ≡ begin_marker
      → All IsInside raw
      → trim (bare end) ≡ end_marker
      → scan_lines keys editing prefix
          (begin ∷ (raw ++ end ∷ []))
          index
          (outside result legacy ignored)
        ≡ outside
            (record (note_repeated (suc index + length raw) result) {
              raw_description = some (join_lines (map bare raw));
            })
            legacy
            false
  unfolding scan_lines described
  scan_lines-block begin raw end index result legacy ignored h inner k =
      rw (begin_line (bare begin) index result legacy ignored h, scan_lines)
        (read_block raw end (suc index) result legacy [] inner k)
