-- ===== src/Localization/Select/Tests.antt =====
-- Fallbacks and choices at concrete inputs.
use scriptmetakit.Chars.{Text, codes, text_eq, trim, trim_start, trim_end, is_whitespace, is_empty}
use scriptmetakit.Localization.Select.Choice.{
  IsSound, IsLanguage, OffersNothing, IsDefaultBlank, IsDefaultLanguageBlank, select_text-IsSound,
  select_text-first, select_text-none,
}
use scriptmetakit.Localization.Select.{
  Values, lookup_candidates, chain, unless_empty, broader, before_last, last_part_is_single,
  one_byte, rsplit_once, get, select_text,
}
use scriptmetakit.Prelude.{List, [], ◌∷◌, All, none, some, ◌↔◌, ◌≡◌, refl, inl, arith}

abbrev traditional : Text
traditional = codes "zh-Hant"

abbrev values : Values
values = (traditional, codes "Traditional") ∷ (codes "zh", codes "Base") ∷ []

abbrev preferred : List Text
preferred = codes "zh-Hant-u" ∷ codes "en" ∷ []

extension :
    lookup_candidates (codes "zh-Hant-x-a") ≡ codes "zh-Hant-x-a" ∷ traditional ∷ codes "zh" ∷ []
unfolding lookup_candidates chain unless_empty broader before_last last_part_is_single one_byte
    rsplit_once
extension = refl

select_text-IsSound_example :
    IsSound
      (some (codes "Default"))
      values
      (some (codes "de"))
      (select_text (some (codes "Default")) values (some (codes "de")) preferred)
select_text-IsSound_example =
    select_text-IsSound (some (codes "Default")) values (some (codes "de")) preferred

-- The languages of `preferred`, by their subtags.
abbrev subtags : List (List Text)
subtags = (codes "u" ∷ codes "Hant" ∷ codes "zh" ∷ []) ∷ (codes "en" ∷ []) ∷ []

are_languages : All IsLanguage subtags
are_languages = (
  ((omega arith, refl), ((omega arith, refl), ((omega arith, refl), tt))),
  (((omega arith, refl), tt), tt),
)

select_text-first_example :
    select_text (some (codes "Default")) values (some (codes "de")) preferred
    ≡ (some (codes "Traditional"), some traditional)
unfolding get text_eq trim trim_start trim_end is_whitespace is_empty
select_text-first_example =
    select_text-first (some (codes "Default")) values (some (codes "de")) subtags
      (codes "zh-Hant-u" ∷ []) (codes "zh" ∷ codes "en" ∷ []) traditional (codes "Traditional")
      are_languages refl (((λ v e. cc), λ e. cc), tt) (refl, inl refl)

-- Readers of English get nothing, since the default is blank and there is no text in German.
select_text-none_example :
    (select_text (some (codes " ")) values (some (codes "de")) (codes "en" ∷ []) ≡ (none, none)) ↔ (
      All (OffersNothing (some (codes " ")) values (some (codes "de"))) (codes "en" ∷ [])
      × IsDefaultBlank (some (codes " ")) values (some (codes "de"))
      × IsDefaultLanguageBlank (some (codes " ")) values (some (codes "de")))
select_text-none_example =
    select_text-none (some (codes " ")) values (some (codes "de")) ((codes "en" ∷ []) ∷ [])
      (((omega arith, refl), tt), tt)
