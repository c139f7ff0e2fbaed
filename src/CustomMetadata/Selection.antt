-- ===== src/CustomMetadata/Selection.antt =====
-- `CustomMetadataSelection`: the keys of custom metadata that a consumer asks for.
pub mod Keep
pub mod Subset
mod Tests
use scriptmetakit.Chars.{Text, codes, text_eq, eq_ignore_ascii_case}
use scriptmetakit.CustomMetadata.Keys.{normalize_custom_metadata_key}
use scriptmetakit.Errors.{ScriptMetaKitResult, ok, err}
use scriptmetakit.Paths.{compare_text}
use scriptmetakit.Prelude.{
  Bool, true, false, not, ◌&&◌, ◌||◌, List, [], ◌∷◌, ◌++◌, if◌then◌else◌, any, all, Ordering,
}

abbrev pub all_keys : Text
all_keys = codes "X-"

abbrev pub CustomMetadataSelection : Type 0
CustomMetadataSelection = List Text

-- `sort_unstable` on texts, where equal texts cannot be told apart.
insert_key : Text → List Text → List Text
insert_key key [] = key ∷ []
insert_key key (x ∷ xs) =
    let later = insert_key key xs in
    elim (compare_text key x) [
      | Ordering.gt ↦ x ∷ later
      | Ordering.lt ↦ key ∷ x ∷ xs
      | Ordering.eq ↦ key ∷ x ∷ xs
    ]

pub sort_keys : List Text → List Text
sort_keys [] = []
sort_keys (key ∷ keys) = insert_key key (sort_keys keys)

-- `dedup`: of equal neighbours one is kept.
keep_key : Text → List Text → List Text
keep_key key [] = key ∷ []
keep_key key (x ∷ xs) = if text_eq key x then x ∷ xs else key ∷ x ∷ xs

pub dedup : List Text → List Text
dedup [] = []
dedup (key ∷ keys) = keep_key key (dedup keys)

finish : List Text → Bool → CustomMetadataSelection
finish values true = all_keys ∷ []
finish values false = dedup (sort_keys values)

-- The loop, with the mutable `values` and `all`.
add_keys : List Text → Bool → List Text → ScriptMetaKitResult CustomMetadataSelection
add_keys values every [] = ok (finish values every)
add_keys values every (key ∷ keys) = elim (eq_ignore_ascii_case key all_keys) [
  | true ↦ add_keys values true keys
  | false ↦ elim (normalize_custom_metadata_key key) [
    | err error ↦ err error
    | ok value ↦ add_keys (values ++ value ∷ []) every keys
  ]
]

pub new : List Text → ScriptMetaKitResult CustomMetadataSelection
new keys = add_keys [] false keys

unfoldable pub is_all : CustomMetadataSelection → Bool
is_all [] = false
is_all (value ∷ values) = text_eq value all_keys

unfoldable pub contains : CustomMetadataSelection → Text → Bool
contains selection key = is_all selection || any (λ value. eq_ignore_ascii_case value key) selection

pub is_subset_of : CustomMetadataSelection → CustomMetadataSelection → Bool
is_subset_of selection previous =
    is_all previous || not (is_all selection) && all (contains previous) selection
