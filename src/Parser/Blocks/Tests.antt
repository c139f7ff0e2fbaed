-- ===== src/Parser/Blocks/Tests.antt =====
-- A block between its markers.
use scriptmetakit.Chars.{Text, codes}
use scriptmetakit.Parser.Blocks.Found.{IsBlock, script_metadata_body_iff}
use scriptmetakit.Parser.Blocks.{script_metadata_body}
use scriptmetakit.Prelude.{true, some, ◌≡◌, ◌↔◌}

abbrev closed : Text
closed = codes "/* scriptmeta-begin\nVersion=1\nSCRIPTMETA-END */"

script_metadata_body_iff_example :
    (script_metadata_body closed true ≡ some (codes "\nVersion=1\n"))
    ↔ IsBlock closed (codes "\nVersion=1\n")
script_metadata_body_iff_example = script_metadata_body_iff closed (codes "\nVersion=1\n")
