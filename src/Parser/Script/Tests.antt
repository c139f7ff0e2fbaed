-- ===== src/Parser/Script/Tests.antt =====
-- A description block in a comment.
use scriptmetakit.Chars.{codes, trim, trim_start, trim_end, is_whitespace, text_eq, strip_prefix}
use scriptmetakit.Chars.Lines.{join_lines}
use scriptmetakit.Parser.Blocks.{clean_metadata_line, strip_comments, strip_comment}
use scriptmetakit.Parser.Script.Description.{read_lines-block}
use scriptmetakit.Parser.Script.{start, no_fields, read_lines}
use scriptmetakit.Prelude.{false, [], ◌∷◌, some, ◌≡◌, refl}

read_lines-block_example :
    read_lines
      (codes "// Description-BEGIN" ∷ codes "//  one" ∷ codes "" ∷ codes "// Description-END" ∷ [])
      start
    ≡ record {
      fields = record no_fields { description = some (codes "one\n") };
      description = [];
      description_needs_separator = false;
      in_description = false;
    }
unfolding clean_metadata_line strip_comments strip_comment trim trim_start trim_end is_whitespace
    text_eq strip_prefix join_lines
read_lines-block_example =
    read_lines-block (codes "// Description-BEGIN") (codes "//  one" ∷ codes "" ∷ [])
      (codes "// Description-END") start refl ((refl, refl), ((refl, refl), tt)) refl
