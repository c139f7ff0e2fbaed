-- ===== src/Chars/Lines.antt =====
-- `str::lines` on a text without carriage returns, and `join("\n")`.
use scriptmetakit.Chars.Search.{consed}
use scriptmetakit.Chars.{Text}
use scriptmetakit.Prelude.{List, [], ◌∷◌, ◌++◌, ◌==◌, if◌then◌else◌}

unfoldable pub lines : Text → List Text
lines [] = []
lines (c ∷ s) = let later = lines s in if c == 0xa then [] ∷ later else consed c later

unfoldable pub join_lines : List Text → Text
join_lines [] = []
join_lines (line ∷ []) = line
join_lines (line ∷ next ∷ rest) = line ++ 0xa ∷ join_lines (next ∷ rest)
