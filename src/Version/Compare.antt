-- ===== src/Version/Compare.antt =====
-- `compare_versions` returns, and computes the order on the lists of segments.
use scriptmetakit.Chars.{Text}
use scriptmetakit.Prelude.{
  ℕ, zero, suc, ◌+◌, ◌<◌, ◌≡◌, refl, [], some, arith, length, inl, inr, Option-cases,
}
use scriptmetakit.Version.Segments.{
  segments, segments-none, segments-some, compare_lists, length-next,
}
use scriptmetakit.Version.{
  next, next_of, decide, found, behind, compare_segment, compare_loop, compare_segments,
  compare_versions, version_ordering,
}

segments-nil : segments [] ≡ []
unfolding next next_of
segments-nil = segments-none [] refl

compare_loop-segments :
    (f : ℕ) (l r : Text)
    → length l + length r < f
    → compare_loop f l r ≡ some (compare_lists (segments l) (segments r))
unfolding compare_loop found behind compare_lists decide compare_segment
compare_loop-segments zero l r h = absurd (omega arith)
compare_loop-segments (suc f) l r h = elim (Option-cases (next l)) [
  | inl e ↦ elim (Option-cases (next r)) [
    | inl k ↦ rw (e, k, segments-none l e, segments-none r k) refl
    | inr (q, k) ↦
        rw (e, k, segments-none l e, segments-some r k)
          (ground (
            arith,
            length-next r k,
            segments-nil,
            compare_loop-segments f [] q.1 (omega (arith, length-next r k)),
          ))
  ]
  | inr (p, e) ↦ elim (Option-cases (next r)) [
    | inl k ↦
        rw (e, k, segments-some l e, segments-none r k)
          (ground
            (arith, segments-nil, compare_loop-segments f p.1 [] (omega (arith, length-next l e))))
    | inr (q, k) ↦
        rw (e, k, segments-some l e, segments-some r k)
          (ground (
            arith,
            compare_loop-segments f p.1 q.1 (omega (arith, length-next l e, length-next r k)),
          ))
  ]
]

-- The comparison always returns: its result is the order of the two lists of segments, read
-- position by position with the first difference deciding.
pub compare_versions-segments :
    (lhs rhs : Text)
    → compare_versions lhs rhs
      ≡ some (version_ordering (compare_lists (segments lhs) (segments rhs)))
unfolding compare_versions compare_segments
compare_versions-segments lhs rhs =
    rw
      (
        compare_versions,
        compare_loop-segments (suc (length lhs + length rhs)) lhs rhs (omega arith),
      )
      refl
