-- ===== src/Parser/Fields/Tests.antt =====
-- A compact line of a distribution page.
use scriptmetakit.Chars.{
  Text, codes, is_whitespace, eq_ignore_ascii_case, to_ascii_lowercase, ascii_lower, text_eq,
}
use scriptmetakit.Parser.Blocks.{starts_with_marker}
use scriptmetakit.Parser.Fields.Rendered.{render, tidy, for_each_metadata_field-render}
use scriptmetakit.Parser.Fields.{
  distribution_metadata_keys, for_each_metadata_field, contains_inline_metadata_field_raw,
  inline_field, field_here, metadata_field_at, metadata_value_start,
}
use scriptmetakit.Prelude.{true, List, [], ◌∷◌, map, ◌≡◌, refl, inl, inr}

abbrev release : List (Text × Text)
release = (codes "Script-ID", codes "a.b") ∷ (codes "Version", codes " 1.2") ∷ []

for_each_metadata_field-render_example :
    for_each_metadata_field (render release) distribution_metadata_keys ≡ map tidy release
unfolding contains_inline_metadata_field_raw inline_field field_here metadata_field_at
    metadata_value_start starts_with_marker eq_ignore_ascii_case to_ascii_lowercase ascii_lower
    text_eq is_whitespace
for_each_metadata_field-render_example =
    for_each_metadata_field-render true release ((inl refl, refl), ((inr (inl refl), refl), tt))
