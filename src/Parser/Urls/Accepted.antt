-- ===== src/Parser/Urls/Accepted.antt =====
-- The URLs that `normalize_metadata_url` returns.
use scriptmetakit.Chars.{Text, codes, text_eq, is_empty}
use scriptmetakit.Parser.Urls.{
  UrlCrate, accept, parse_metadata_url, parse_repaired, repaired, with_scheme, attempts, unquoted,
  normalize_metadata_url,
}
use scriptmetakit.Chars.Search.{contains_text}
use scriptmetakit.Prelude.{
  true, false, ◌++◌, Option, none, some, some_inj, ◌≡◌, ◌∙◌, subst, Bool-cases, Option-cases, ◌⊎◌,
  inl, inr,
}

module _ (crate : UrlCrate) where
  open crate use {Url, parse, scheme, has_file_path, has_host}

  -- A file URL with a path on this system, or a URL of another scheme with a host.
  abbrev pub IsUsable : Url → Type 0
  IsUsable url =
      ((text_eq (scheme url) (codes "file") ≡ true) × (has_file_path url ≡ true))
      ⊎ ((text_eq (scheme url) (codes "file") ≡ false) × (has_host url ≡ true))

  accept-IsUsable : (url result : Url) → accept crate url ≡ some result → IsUsable result
  unfolding accept
  accept-IsUsable url result h = elim (Bool-cases (text_eq (scheme url) (codes "file"))) [
    | inl e ↦ elim (Bool-cases (has_file_path url)) [
      | inl k ↦ subst IsUsable (some_inj (rw (e, k, accept) at h)) (inl (e, k))
      | inr k ↦ let q = (rw (e, k, accept) at h) in cc
    ]
    | inr e ↦ elim (Bool-cases (has_host url)) [
      | inl k ↦ subst IsUsable (some_inj (rw (e, k, accept) at h)) (inr (e, k))
      | inr k ↦ let q = (rw (e, k, accept) at h) in cc
    ]
  ]

  parse_metadata_url-IsUsable :
      (value : Text) (result : Url) → parse_metadata_url crate value ≡ some result → IsUsable result
  unfolding parse_metadata_url
  parse_metadata_url-IsUsable value result h = elim (Option-cases (parse value)) [
    | inl e ↦ let q = (rw (e, parse_metadata_url) at h) in cc
    | inr (url, e) ↦ accept-IsUsable url result (rw (e, parse_metadata_url) at h)
  ]

  parse_repaired-IsUsable :
      (text : Option Text) (result : Url)
      → parse_repaired crate text ≡ some result
      → IsUsable result
  unfolding parse_repaired
  parse_repaired-IsUsable none result h = cc
  parse_repaired-IsUsable (some text) result h = parse_metadata_url-IsUsable text result h

  with_scheme-IsUsable :
      (value : Text) (result : Url) → with_scheme crate value ≡ some result → IsUsable result
  unfolding with_scheme
  with_scheme-IsUsable value result h = elim (Bool-cases (contains_text value (codes "://"))) [
    | inl e ↦ let q = (rw (e, with_scheme) at h) in cc
    | inr e ↦
        parse_metadata_url-IsUsable (codes "https://" ++ value) result (rw (e, with_scheme) at h)
  ]

  attempts-IsUsable :
      (value : Text) (result : Url) → attempts crate value ≡ some result → IsUsable result
  unfolding attempts
  attempts-IsUsable value result h = elim (Option-cases (parse_metadata_url crate value)) [
    | inr (url, e) ↦ parse_metadata_url-IsUsable value result (e ∙ (rw (e, attempts) at h))
    | inl e ↦ elim (Option-cases (parse_repaired crate (repaired value))) [
      | inr (url, k) ↦
          parse_repaired-IsUsable (repaired value) result (k ∙ (rw (e, k, attempts) at h))
      | inl k ↦ with_scheme-IsUsable value result (rw (e, k, attempts) at h)
    ]
  ]

  -- A URL of the metadata is one of a file that this system has a path for, or one with a host.
  pub normalize_metadata_url-IsUsable :
      (value : Text) (result : Url)
      → normalize_metadata_url crate value ≡ some result
      → IsUsable result
  unfolding normalize_metadata_url
  normalize_metadata_url-IsUsable value result h = elim (Bool-cases (is_empty (unquoted value))) [
    | inl e ↦ let q = (rw (e, normalize_metadata_url) at h) in cc
    | inr e ↦ attempts-IsUsable (unquoted value) result (rw (e, normalize_metadata_url) at h)
  ]
