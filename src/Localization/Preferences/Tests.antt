-- ===== src/Localization/Preferences/Tests.antt =====
-- Preferences over a toy stand-in for the crate, which knows `ja` and `en` in any case.
use scriptmetakit.Chars.Distinct.{push_new}
use scriptmetakit.Chars.{
  Text, codes, eq_ignore_ascii_case, to_ascii_lowercase, ascii_lower, text_eq, trim, trim_start,
  trim_end, is_whitespace,
}
use scriptmetakit.Errors.{ok, ok_inj}
use scriptmetakit.Localization.Preferences.{LanguageTags, normalize_language_tag, new, IsStable}
use scriptmetakit.Prelude.{
  List, [], ◌∷◌, none, if◌then◌else◌, ◌⊎◌, inl, inr, ◌≡◌, refl, subst, Bool-cases,
}

pub data Tag : Type 0 where
  ja en : Tag

abbrev pub toy_parse : Text → Text ⊎ Tag
toy_parse value =
    if eq_ignore_ascii_case value (codes "ja")
    then inr ja
    else if eq_ignore_ascii_case value (codes "en")
    then inr en
    else inl (codes "unknown")

abbrev pub name : Tag → Text
name ja = codes "ja"
name en = codes "en"

abbrev pub toy : LanguageTags
toy = record {
  LanguageTag = Tag;
  parse = toy_parse;
  validate = λ tag. none;
  canonicalize = λ tag. inr tag;
  into_string = name;
}

abbrev wanted : List Text
wanted = codes "EN" ∷ codes " ja " ∷ codes "en" ∷ []

abbrev canonical : List Text
canonical = codes "en" ∷ codes "ja" ∷ codes "en" ∷ []

name_normal : (tag : Tag) → normalize_language_tag toy (trim (name tag)) ≡ ok (name tag)
unfolding normalize_language_tag eq_ignore_ascii_case to_ascii_lowercase ascii_lower text_eq trim
    trim_start trim_end is_whitespace
name_normal ja = refl
name_normal en = refl

stable_at : (tag : Tag) (c : Text) → name tag ≡ c → normalize_language_tag toy (trim c) ≡ ok c
stable_at tag c e = subst (λ l. normalize_language_tag toy (trim l) ≡ ok l) e (name_normal tag)

wanted-new : new toy wanted ≡ ok (codes "en" ∷ codes "ja" ∷ [])
unfolding new normalize_language_tag eq_ignore_ascii_case to_ascii_lowercase ascii_lower text_eq
    trim trim_start trim_end is_whitespace push_new
wanted-new = refl

toy-IsStable : IsStable toy
unfolding normalize_language_tag
toy-IsStable value c h = elim (Bool-cases (eq_ignore_ascii_case value (codes "ja"))) [
  | inl e ↦ stable_at ja c (ok_inj (rw (e, normalize_language_tag) at h))
  | inr e ↦ elim (Bool-cases (eq_ignore_ascii_case value (codes "en"))) [
    | inl f ↦ stable_at en c (ok_inj (rw (e, f, normalize_language_tag) at h))
    | inr f ↦ let q = (rw (e, f, normalize_language_tag) at h) in cc
  ]
]
