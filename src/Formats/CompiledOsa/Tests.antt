-- ===== src/Formats/CompiledOsa/Tests.antt =====
-- The theorem on compiled scripts at a concrete input.
use scriptmetakit.Chars.{Text, codes}
use scriptmetakit.Formats.CompiledOsa.{big, Decoders, utf16_marker}
use scriptmetakit.Prelude.{ℕ, List, ◌++◌, some}

abbrev plain : Decoders
plain = record { from_utf16 = λ units. some units; from_utf8 = λ bytes. some bytes }

abbrev block : Text
block = codes "SCRIPTMETA-BEGIN v SCRIPTMETA-END"

abbrev compiled : List ℕ
compiled = codes "ascr " ++ utf16_marker block big ++ codes "."
