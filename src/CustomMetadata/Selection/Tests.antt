-- ===== src/CustomMetadata/Selection/Tests.antt =====
-- The theorems on selections at concrete inputs.
use scriptmetakit.Chars.{
  Text, codes, eq_ignore_ascii_case, to_ascii_lowercase, ascii_lower, text_eq,
}
use scriptmetakit.CustomMetadata.Keys.Tests.{mixed, normal, mixed-normal}
use scriptmetakit.CustomMetadata.Selection.Subset.{is_subset_of_iff}
use scriptmetakit.CustomMetadata.Selection.{
  CustomMetadataSelection, new, add_keys, finish, dedup, sort_keys, insert_key, keep_key, contains,
  is_subset_of,
}
use scriptmetakit.Errors.{ok}
use scriptmetakit.Prelude.{true, [], ◌∷◌, ◌≡◌, ◌↔◌, refl}

mixed-new : new (mixed ∷ []) ≡ ok (normal ∷ [])
unfolding new add_keys finish dedup sort_keys insert_key keep_key eq_ignore_ascii_case
    to_ascii_lowercase ascii_lower text_eq
mixed-new = rw (mixed-normal, add_keys) refl

abbrev every : CustomMetadataSelection
every = codes "X-" ∷ []

is_subset_of_iff_example :
    (is_subset_of (normal ∷ []) every ≡ true)
    ↔ ((key : Text) → contains (normal ∷ []) key ≡ true → contains every key ≡ true)
is_subset_of_iff_example = is_subset_of_iff (normal ∷ []) every
