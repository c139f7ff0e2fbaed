-- ===== src/Version/Laws.antt =====
-- What `compare_versions` promises of texts.
use scriptmetakit.Chars.{Text}
use scriptmetakit.Prelude.{◌≡◌, ◌≢◌, sym, ap, ◌∙◌, some, arith, Ordering, true, some_inj}
use scriptmetakit.Version.Compare.{compare_versions-segments}
use scriptmetakit.Version.Order.{
  flip, not_after, compare_lists-flip, compare_lists_refl, compare_lists_trans,
}
use scriptmetakit.Version.Segments.{segments, compare_lists}
use scriptmetakit.Version.Words.{segments-numbers, NoLetters}
use scriptmetakit.Version.{
  VersionOrdering, less, equal, greater, compare_versions, version_ordering,
}

-- The ordering with its two sides exchanged.
abbrev pub reverse : VersionOrdering → VersionOrdering
reverse less = greater
reverse equal = equal
reverse greater = less

version_ordering-flip : (o : Ordering) → version_ordering (flip o) ≡ reverse (version_ordering o)
unfolding version_ordering
version_ordering-flip o = ground arith

-- Exchanging the two versions reverses the result.
pub compare_versions_swap :
    (lhs rhs : Text) (o : VersionOrdering)
    → compare_versions lhs rhs ≡ some o
    → compare_versions rhs lhs ≡ some (reverse o)
compare_versions_swap lhs rhs o h =
    let xs = segments lhs in
    let ys = segments rhs in
    compare_versions-segments rhs lhs
    ∙ ap (λ p. some (version_ordering p)) (compare_lists-flip xs ys)
    ∙ ap some (version_ordering-flip (compare_lists xs ys))
    ∙ ap (λ p. some (reverse p)) (some_inj (sym (compare_versions-segments lhs rhs) ∙ h))

-- A version is equal to itself.
pub compare_versions_refl : (v : Text) → compare_versions v v ≡ some equal
unfolding version_ordering
compare_versions_refl v =
    compare_versions-segments v v
    ∙ ap (λ p. some (version_ordering p)) (compare_lists_refl (segments v))

not_after_of :
    (a b : Text)
    → compare_versions a b ≢ some greater
    → not_after (compare_lists (segments a) (segments b)) ≡ true
unfolding version_ordering
not_after_of a b h = ground (arith, compare_versions-segments a b)

-- On versions with no ASCII letters the comparison is transitive: if `a` is not after `b` and `b`
-- is not after `c`, then `a` is not after `c`.
pub compare_versions_trans :
    (a b c : Text)
    → NoLetters a
    → NoLetters b
    → NoLetters c
    → compare_versions a b ≢ some greater
    → compare_versions b c ≢ some greater
    → compare_versions a c ≢ some greater
unfolding version_ordering
compare_versions_trans a b c ha hb hc h k = ground (
  arith,
  compare_versions-segments a c,
  compare_lists_trans (segments a) (segments b) (segments c) (segments-numbers a ha)
      (segments-numbers b hb) (segments-numbers c hc) (not_after_of a b h) (not_after_of b c k),
)
