-- ===== src/Localization/Description/Escapes.antt =====
-- `unescape_description`: every text can be written with escapes.
use scriptmetakit.Chars.{Text}
use scriptmetakit.Localization.Description.{is_escapable}
use scriptmetakit.Prelude.{[], ◌∷◌, if◌then◌else◌}

-- A backslash in front of every bracket and every backslash.
pub escape : Text → Text
escape [] = []
escape (c ∷ s) = let later = escape s in if is_escapable c then 0x5c ∷ c ∷ later else c ∷ later
