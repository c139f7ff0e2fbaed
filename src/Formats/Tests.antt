-- ===== src/Formats/Tests.antt =====
-- A script of ExtendScript, with bytes that are taken for text as they are.
use scriptmetakit.Chars.{Text, codes}
use scriptmetakit.Formats.Kinds.{is_jsxbin_obfuscated_script-read_script_header_probe}
use scriptmetakit.Formats.{read_script_header_probe, is_jsxbin_obfuscated_script}
use scriptmetakit.Paths.{FilePath, normal}
use scriptmetakit.Prelude.{ℕ, List, [], ◌∷◌, some, ◌≡◌}

abbrev pub as_is : List ℕ → Text
as_is bytes = bytes

abbrev pub script : FilePath
script = normal (codes "a.jsx") ∷ []

abbrev pub contents : List ℕ
contents = codes "@JSXBIN@ES@2.0@"

is_jsxbin_obfuscated_script-read_script_header_probe_example :
    is_jsxbin_obfuscated_script as_is script (read_script_header_probe script (some contents))
    ≡ is_jsxbin_obfuscated_script as_is script (some contents)
is_jsxbin_obfuscated_script-read_script_header_probe_example =
    is_jsxbin_obfuscated_script-read_script_header_probe as_is script contents
