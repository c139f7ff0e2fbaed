-- ===== src/Extensions.antt =====
-- `ExtensionPolicy` of src/scanner/options.rs: the extensions of script files. The set is a list.
pub mod Laws
use scriptmetakit.Chars.Distinct.{contains}
use scriptmetakit.Chars.{Text, to_ascii_lowercase, trim, is_empty}
use scriptmetakit.Paths.{FilePath, file_name}
use scriptmetakit.Prelude.{
  ℕ, Bool, true, false, not, ◌&&◌, List, [], ◌∷◌, map, filter, Option, none, some, leb, ◌==◌,
  if◌then◌else◌, any, drop_while,
}

abbrev is_dot : ℕ → Bool
is_dot c = c == b'.'

-- `trim_start_matches('.')` behind `trim()`.
bare : Text → Text
bare extension = drop_while is_dot (trim extension)

pub normalize_extension : Text → Text
normalize_extension extension = to_ascii_lowercase (bare extension)

abbrev pub ExtensionPolicy : Type 0
ExtensionPolicy = List Text

pub new : List Text → ExtensionPolicy
new extensions = filter (λ e. not (is_empty e)) (map normalize_extension extensions)

is_ascii_uppercase : ℕ → Bool
is_ascii_uppercase c = leb b'A' c && leb c b'Z'

lookup : ExtensionPolicy → Text → Bool
lookup policy extension =
    if is_empty extension
    then false
    else if any is_ascii_uppercase extension
    then contains policy (to_ascii_lowercase extension)
    else contains policy extension

pub contains_extension : ExtensionPolicy → Text → Bool
contains_extension policy extension = lookup policy (bare extension)

-- `Path::extension`: behind the last dot of the file name, unless that dot comes first.
unfoldable pub behind_dot : Text → Option Text
behind_dot [] = none
behind_dot (c ∷ s) = elim (behind_dot s) [
  | some extension ↦ some extension
  | none ↦ if c == b'.' then some s else none
]

unfoldable pub extension_of : Text → Option Text
extension_of [] = none
extension_of (c ∷ s) = behind_dot s

unfoldable pub name_extension : Option Text → Option Text
name_extension none = none
name_extension (some name) = extension_of name

unfoldable pub extension : FilePath → Option Text
extension path = name_extension (file_name path)

unfoldable pub contains_path : ExtensionPolicy → FilePath → Bool
contains_path policy path = elim (extension path) [
  | none ↦ false
  | some e ↦ contains_extension policy e
]
