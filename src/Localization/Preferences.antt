-- ===== src/Localization/Preferences.antt =====
-- `normalize_language_tag` and `LanguagePreferences::new`. The crate `language_tags` is a parameter.
pub mod Tests
use scriptmetakit.Chars.Distinct.{
  push_new, push_all, first_appearances, push_all-first_appearances, first_appearances_idem,
  All-first_appearances,
}
use scriptmetakit.Chars.{Text, codes, trim}
use scriptmetakit.Errors.{
  ScriptMetaKitError, invalid_config, ScriptMetaKitResult, ok, err, Result-cases,
}
use scriptmetakit.Prelude.{
  List, [], ◌∷◌, ◌++◌, ◌≡◌, refl, sym, ap, ◌∙◌, append-nil, All, subst, ◌⊎◌, inl, inr, Option, none,
  some, arith,
}

-- The calls of the crate; its errors are the messages that `{error}` prints.
pub record LanguageTags : Type 1 where
  pub LanguageTag : Type 0
  pub parse : Text → Text ⊎ LanguageTag
  pub validate : LanguageTag → Option Text
  pub canonicalize : LanguageTag → Text ⊎ LanguageTag
  pub into_string : LanguageTag → Text

abbrev invalid_language_tag : Text → Text → ScriptMetaKitError
invalid_language_tag value error =
    invalid_config (codes "invalid language tag `" ++ value ++ codes "`: " ++ error)

abbrev not_canonical : Text → Text → ScriptMetaKitError
not_canonical value error =
    invalid_config (codes "cannot canonicalize language tag `" ++ value ++ codes "`: " ++ error)

module _ (tags : LanguageTags) where
  unfoldable pub normalize_language_tag : Text → ScriptMetaKitResult Text
  normalize_language_tag value = elim (tags.parse value) [
    | inl error ↦ err (invalid_language_tag value error)
    | inr tag ↦ elim (tags.validate tag) [
      | some error ↦ err (invalid_language_tag value error)
      | none ↦ elim (tags.canonicalize tag) [
        | inl error ↦ err (not_canonical value error)
        | inr canonical ↦ ok (tags.into_string canonical)
      ]
    ]
  ]

  -- The loop, with the languages found so far.
  collect : List Text → List Text → ScriptMetaKitResult (List Text)
  collect result [] = ok result
  collect result (language ∷ languages) = elim (normalize_language_tag (trim language)) [
    | err error ↦ err error
    | ok canonical ↦ collect (push_new canonical result) languages
  ]

  unfoldable pub new : List Text → ScriptMetaKitResult (List Text)
  unfolding collect
  new languages = collect [] languages

  -- The two lists have the same length, and each text on the right is the canonical form of the
  -- one on the left.
  abbrev pub Canonical : List Text → List Text → Type 0
  Canonical [] [] = Unit
  Canonical [] (c ∷ cs) = ⊥
  Canonical (l ∷ ls) [] = ⊥
  Canonical (l ∷ ls) (c ∷ cs) = (normalize_language_tag (trim l) ≡ ok c) × Canonical ls cs

  collect-Canonical :
      (ls cs acc rest : List Text)
      → Canonical ls cs
      → collect acc (ls ++ rest) ≡ collect (push_all acc cs) rest
  unfolding collect push_all
  collect-Canonical [] [] acc rest h = refl
  collect-Canonical [] (c ∷ cs) acc rest h = absurd h
  collect-Canonical (l ∷ ls) [] acc rest h = absurd h
  collect-Canonical (l ∷ ls) (c ∷ cs) acc rest h =
      rw (h.0, collect) (collect-Canonical ls cs (push_new c acc) rest h.1)

  -- If every language has a canonical form, the preferences are these forms in the order of their
  -- first appearance.
  pub new-first_appearances :
      (languages canonical : List Text)
      → Canonical languages canonical
      → new languages ≡ ok (first_appearances canonical)
  unfolding new collect
  new-first_appearances languages canonical h =
      sym (ap (collect []) (append-nil languages))
      ∙ collect-Canonical languages canonical [] [] h
      ∙ ap ok (push_all-first_appearances canonical)

  -- The first language without a canonical form decides: its error is returned, whatever follows.
  pub new-err :
      (languages canonical : List Text) (bad : Text) (rest : List Text) (e : ScriptMetaKitError)
      → Canonical languages canonical
      → normalize_language_tag (trim bad) ≡ err e
      → new (languages ++ bad ∷ rest) ≡ err e
  unfolding new collect
  new-err languages canonical bad rest e h k =
      collect-Canonical languages canonical [] (bad ∷ rest) h ∙ (rw (k, collect) refl)

  collect-inv :
      (ls acc r : List Text)
      → collect acc ls ≡ ok r
      → (cs : List Text) × Canonical ls cs × (r ≡ push_all acc cs)
  unfolding collect push_all
  collect-inv [] acc r h = ([], tt, cc)
  collect-inv (l ∷ ls) acc r h = elim (Result-cases (normalize_language_tag (trim l))) [
    | inl (c, e) ↦
        let k = collect-inv ls (push_new c acc) r (rw (e, collect) at h) in (c ∷ k.0, (e, k.1), k.2)
    | inr (x, e) ↦ let k = (rw (e, collect) at h) in cc
  ]

  -- A canonical form is its own canonical form, and white space around it does not matter.
  abbrev pub IsStable : Type 0
  IsStable =
      (value c : Text)
      → normalize_language_tag value ≡ ok c
      → normalize_language_tag (trim c) ≡ ok c

  Canonical-self :
      (ls cs : List Text)
      → IsStable
      → Canonical ls cs
      → All (λ c. normalize_language_tag (trim c) ≡ ok c) cs
  Canonical-self [] [] s h = tt
  Canonical-self [] (c ∷ cs) s h = absurd h
  Canonical-self (l ∷ ls) [] s h = absurd h
  Canonical-self (l ∷ ls) (c ∷ cs) s h = (s (trim l) c h.0, Canonical-self ls cs s h.1)

  All-Canonical :
      (cs : List Text) → All (λ c. normalize_language_tag (trim c) ≡ ok c) cs → Canonical cs cs
  All-Canonical [] h = tt
  All-Canonical (c ∷ cs) h = (h.0, All-Canonical cs h.1)

  -- Preferences that were written out and are read again come back the same, if canonical forms
  -- are stable.
  pub new_idem : (languages r : List Text) → IsStable → new languages ≡ ok r → new r ≡ ok r
  unfolding new
  new_idem languages r s h =
      let k = collect-inv languages [] r h in
      let cs = k.0 in
      let e = k.2 ∙ push_all-first_appearances cs in
      let self =
        All-Canonical (first_appearances cs)
          (All-first_appearances _ cs (Canonical-self languages cs s k.1)) in
      subst (λ p. new p ≡ ok p) (sym e)
        (new-first_appearances (first_appearances cs) (first_appearances cs) self
          ∙ ap ok (first_appearances_idem cs))
