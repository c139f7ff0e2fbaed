-- ===== src/Version/Tests.antt =====
-- The tests of src/core/version.rs.
use scriptmetakit.Chars.{
  codes, is_ascii_digit, is_ascii_alphabetic, is_ascii_alphanumeric, is_whitespace, ascii_lower,
}
use scriptmetakit.Prelude.{◌≡◌, ◌≢◌, ◌↔◌, ◌++◌, ◌∷◌, [], refl, none, some}
use scriptmetakit.Version.Compare.{compare_versions-segments}
use scriptmetakit.Version.Grammar.{IsFirstVersion}
use scriptmetakit.Version.Laws.{compare_versions_trans}
use scriptmetakit.Version.Normalize.{normalize_version_string_iff}
use scriptmetakit.Version.Segments.{segments, compare_lists}
use scriptmetakit.Version.Zeros.{zero_text, compare_versions_zero_word}
use scriptmetakit.Version.{
  normalize_version_string, compare_versions, less, equal, greater, component, components,
  scan_version, compact, checked, push_digit, fold_digits, parse_u64_lossy, same_class, segment_of,
  next_of, next, compare_ascii_case_insensitive, compare_segment, found, behind, decide,
  compare_loop, compare_segments, version_ordering,
}

normalizes_scripta_style_versions :
    (normalize_version_string (codes "v1.2.3") ≡ some (codes "1.2.3"))
    × (normalize_version_string (codes " 1. 2 .3 ") ≡ some (codes "1.2.3"))
    × (normalize_version_string (codes "build 12 beta") ≡ some (codes "12"))
    × (normalize_version_string (codes "version x") ≡ none)
unfolding normalize_version_string scan_version component components compact is_whitespace
    is_ascii_digit
normalizes_scripta_style_versions = (refl, refl, refl, refl)

compares_versions :
    (compare_versions (codes "1.2") (codes "1.2.0") ≡ some equal)
    × (compare_versions (codes "1.10") (codes "1.2") ≡ some greater)
    × (compare_versions (codes "1.0b") (codes "1.0A") ≡ some greater)
    × (compare_versions (codes "2.0") (codes "2.0.1") ≡ some less)
unfolding compare_versions compare_segments compare_loop decide found behind compare_segment
    compare_ascii_case_insensitive next next_of segment_of same_class parse_u64_lossy fold_digits
    push_digit checked version_ordering is_ascii_alphanumeric ascii_lower
compares_versions = (refl, refl, refl, refl)

normalize_version_string_iff_example :
    (normalize_version_string (codes "v1.2.") ≡ some (codes "1.2"))
    ↔ IsFirstVersion (compact (codes "v1.2.")) (codes "1.2")
normalize_version_string_iff_example = normalize_version_string_iff (codes "v1.2.") (codes "1.2")

compare_versions-segments_example :
    compare_versions (codes "1.2b") (codes "1.10")
    ≡ some (version_ordering (compare_lists (segments (codes "1.2b")) (segments (codes "1.10"))))
compare_versions-segments_example = compare_versions-segments (codes "1.2b") (codes "1.10")

equal_not_greater : compare_versions (codes "1.2") (codes "1.2.0") ≢ some greater
equal_not_greater h = cc (compares_versions.0)

less_not_greater : compare_versions (codes "2.0") (codes "2.0.1") ≢ some greater
less_not_greater h = cc (compares_versions.3)

padded : compare_versions (codes "2.0.1") (codes "2.0.1.0") ≡ some equal
unfolding compare_versions compare_segments decide compare_loop found behind compare_segment next
    next_of segment_of same_class parse_u64_lossy fold_digits push_digit checked version_ordering
    is_ascii_alphanumeric
padded = refl

compare_versions_trans_example : compare_versions (codes "2.0") (codes "2.0.1.0") ≢ some greater
unfolding is_ascii_alphabetic
compare_versions_trans_example =
    compare_versions_trans (codes "2.0") (codes "2.0.1") (codes "2.0.1.0")
      (refl, (refl, (refl, tt))) (refl, (refl, (refl, (refl, (refl, tt)))))
      (refl, (refl, (refl, (refl, (refl, (refl, (refl, tt))))))) less_not_greater (λ h. cc padded)

compare_versions_zero_word_example :
    (compare_versions (codes "1" ++ b'.' ∷ zero_text) (codes "1") ≡ some equal)
    × (compare_versions (codes "1" ++ b'.' ∷ codes "b") (codes "1") ≡ some greater)
    × (compare_versions (codes "1" ++ b'.' ∷ codes "b") (codes "1" ++ b'.' ∷ zero_text) ≡ some less)
unfolding is_ascii_alphabetic
compare_versions_zero_word_example = compare_versions_zero_word (codes "1") b'b' [] (refl, tt)
