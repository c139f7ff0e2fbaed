-- ===== src/Sections/Tests.antt =====
-- The sections of small bodies.
use scriptmetakit.Chars.{codes, trim, trim_start, trim_end, is_whitespace, text_eq, strip_prefix}
use scriptmetakit.Chars.Lines.{join_lines}
use scriptmetakit.Prelude.{false, [], ◌∷◌, some, ◌≡◌, refl}
use scriptmetakit.Sections.Items.{metadata_sections_with_custom_fields, scan_lines}
use scriptmetakit.Sections.Lines.{strip_metadata_line_prefix, without_space}
use scriptmetakit.Sections.Protected.{outside, scan_lines-block}
use scriptmetakit.Sections.Scan.{note_repeated}
use scriptmetakit.Sections.WellFormed.{
  IsWellFormed, metadata_sections_with_custom_fields-IsWellFormed,
}
use scriptmetakit.Sections.{no_sections}

metadata_sections_with_custom_fields-IsWellFormed_example :
    IsWellFormed (codes "X-a-b" ∷ []) (
      metadata_sections_with_custom_fields
        (codes "Tags=a,b\nX-a-b=1\nX-c-d=2")
        (codes "X-a-b" ∷ []))
metadata_sections_with_custom_fields-IsWellFormed_example =
    metadata_sections_with_custom_fields-IsWellFormed (codes "X-a-b" ∷ [])
      (codes "Tags=a,b\nX-a-b=1\nX-c-d=2")

scan_lines-block_example :
    scan_lines [] false
      (some (codes "#"))
      (codes "# Description-BEGIN" ∷ codes "# Version=2" ∷ codes "# Description-END" ∷ [])
      0
      (outside no_sections [] false)
    ≡ outside (record no_sections { raw_description = some (codes "Version=2") }) [] false
unfolding note_repeated strip_metadata_line_prefix without_space trim trim_start trim_end
    is_whitespace text_eq strip_prefix join_lines
scan_lines-block_example =
    scan_lines-block [] false (some (codes "#")) (codes "# Description-BEGIN")
      (codes "# Version=2" ∷ []) (codes "# Description-END") 0 no_sections [] false refl (refl, tt)
      refl
