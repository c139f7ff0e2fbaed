-- ===== src/Localization/Tags/Merge.antt =====
-- `normalize_metadata_tags`: trimming, merging and rejection.
use scriptmetakit.Chars.Distinct.{
  push_new, push_all, first_appearances, push_all-first_appearances, first_appearances_idem,
  All-first_appearances,
}
use scriptmetakit.Chars.Trim.{trim_idem}
use scriptmetakit.Chars.{Text, trim, is_empty}
use scriptmetakit.Errors.{ok, err}
use scriptmetakit.Localization.Tags.{
  is_valid_metadata_tag, add_tags, normalize_metadata_tags, reserved_tag,
}
use scriptmetakit.Prelude.{
  false, not, List, [], ◌∷◌, ◌++◌, filter, map, ◌≡◌, refl, sym, ap, ◌∙◌, subst, All, Holds,
  Bool-cases, inl, inr, append-nil,
}

-- What is left of the values once they are trimmed and the blank ones are dropped.
abbrev pub trimmed : List Text → List Text
trimmed values = filter (λ v. not (is_empty v)) (map trim values)

abbrev pub AllValid : List Text → Type 0
AllValid = All (Holds is_valid_metadata_tag)

add_tags-trimmed :
    (values acc rest : List Text)
    → AllValid (trimmed values)
    → add_tags acc (values ++ rest) ≡ add_tags (push_all acc (trimmed values)) rest
unfolding add_tags push_all
add_tags-trimmed [] acc rest h = refl
add_tags-trimmed (v ∷ vs) acc rest h = elim (Bool-cases (is_empty (trim v))) [
  | inl e ↦ rw (e, add_tags) (add_tags-trimmed vs acc rest (rw e at h))
  | inr e ↦
      let k : AllValid (trim v ∷ trimmed vs) = (rw e at h) in
      rw (e, add_tags) (rw (k.0, add_tags) (add_tags-trimmed vs (push_new (trim v) acc) rest k.1))
]

-- If all values that are not blank are valid tags, the result is these values, trimmed, in the
-- order of their first appearance.
pub normalize_metadata_tags-first_appearances :
    (values : List Text)
    → AllValid (trimmed values)
    → normalize_metadata_tags values ≡ ok (first_appearances (trimmed values))
unfolding normalize_metadata_tags add_tags
normalize_metadata_tags-first_appearances values h =
    sym (ap (add_tags []) (append-nil values))
    ∙ add_tags-trimmed values [] [] h
    ∙ ap ok (push_all-first_appearances (trimmed values))

-- The first value that is neither blank nor a valid tag decides: its error is returned, whatever
-- follows.
pub normalize_metadata_tags-err :
    (values : List Text) (bad : Text) (rest : List Text)
    → AllValid (trimmed values)
    → is_empty (trim bad) ≡ false
    → is_valid_metadata_tag (trim bad) ≡ false
    → normalize_metadata_tags (values ++ bad ∷ rest) ≡ err (reserved_tag (trim bad))
unfolding normalize_metadata_tags add_tags
normalize_metadata_tags-err values bad rest h e k =
    add_tags-trimmed values [] (bad ∷ rest) h ∙ (rw (e, add_tags) (rw (k, add_tags) refl))

add_tags-inv :
    (values acc r : List Text)
    → add_tags acc values ≡ ok r
    → AllValid (trimmed values) × (r ≡ push_all acc (trimmed values))
unfolding add_tags push_all
add_tags-inv [] acc r h = (tt, cc)
add_tags-inv (v ∷ vs) acc r h = elim (Bool-cases (is_empty (trim v))) [
  | inl e ↦ rw e (add_tags-inv vs acc r (rw (e, add_tags) at h))
  | inr e ↦ elim (Bool-cases (is_valid_metadata_tag (trim v))) [
    | inl k ↦
        let q = add_tags-inv vs (push_new (trim v) acc) r (rw (e, k, add_tags) at h) in
        rw e ((k, q.0), q.1)
    | inr k ↦ let q = (rw (e, k, add_tags) at h) in cc
  ]
]

abbrev IsTrimmed : Text → Type 0
IsTrimmed v = (trim v ≡ v) × (is_empty v ≡ false)

trimmed-IsTrimmed : (values : List Text) → All IsTrimmed (trimmed values)
trimmed-IsTrimmed [] = tt
trimmed-IsTrimmed (v ∷ vs) = elim (Bool-cases (is_empty (trim v))) [
  | inl e ↦ rw e (trimmed-IsTrimmed vs)
  | inr e ↦ rw e ((trim_idem v, e), trimmed-IsTrimmed vs)
]

trimmed_of_IsTrimmed : (values : List Text) → All IsTrimmed values → trimmed values ≡ values
trimmed_of_IsTrimmed [] h = refl
trimmed_of_IsTrimmed (v ∷ vs) h =
    rw h.0.0 (rw h.0.1 (ap (λ l. v ∷ l) (trimmed_of_IsTrimmed vs h.1)))

-- A result holds valid tags only, and is its own result.
pub normalize_metadata_tags_idem :
    (values r : List Text)
    → normalize_metadata_tags values ≡ ok r
    → AllValid r × (normalize_metadata_tags r ≡ ok r)
unfolding normalize_metadata_tags
normalize_metadata_tags_idem values r h =
    let (valid, k) = add_tags-inv values [] r h in
    let t = trimmed values in
    let f = first_appearances t in
    let e : r ≡ f = k ∙ push_all-first_appearances t in
    let s : trimmed f ≡ f =
      trimmed_of_IsTrimmed f (All-first_appearances IsTrimmed t (trimmed-IsTrimmed values)) in
    let ok_f : AllValid f = All-first_appearances (Holds is_valid_metadata_tag) t valid in
    let again = normalize_metadata_tags-first_appearances f (subst AllValid (sym s) ok_f) in
    (
      subst AllValid (sym e) ok_f,
      subst (λ l. normalize_metadata_tags l ≡ ok l) (sym e)
          (again ∙ ap (λ l. ok (first_appearances l)) s ∙ ap ok (first_appearances_idem t)),
    )
