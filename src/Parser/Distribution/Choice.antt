-- ===== src/Parser/Distribution/Choice.antt =====
-- `select_distribution_metadata_for_script`: the record of a page that answers for a script.
use scriptmetakit.Chars.{Text, text_eq_sound, text_eq_refl}
use scriptmetakit.Errors.{ok, ok_inj}
use scriptmetakit.Parser.Distribution.Ids.{HasId, parse_distribution_entries-HasId}
use scriptmetakit.Parser.Distribution.{
  DistributionMetadata, parse_distribution_entries, has_script_id, find_last, not_found,
  first_entry, is_single, select_distribution_metadata_for_script,
}
use scriptmetakit.Parser.Urls.{UrlCrate}
use scriptmetakit.Prelude.{
  Bool, true, false, not, List, [], ◌∷◌, ◌++◌, none, some, is_some, All, all, any, ◌≡◌, refl, sym,
  ap, ◌∙◌, subst, Bool-cases, Option-cases, some_inj, ◌⊎◌, inl, inr, arith,
}

module _ (crate : UrlCrate) where
  find_last-none :
      (p : DistributionMetadata crate → Bool) (xs : List (DistributionMetadata crate))
      → any p xs ≡ false
      → find_last crate p xs ≡ none
  unfolding find_last
  find_last-none p [] h = refl
  find_last-none p (x ∷ xs) h =
      let fails : p x ≡ false = ground (arith, h) in
      rw (find_last-none p xs (ground (arith, h)), find_last) (rw fails refl)

  find_last_behind :
      (p : DistributionMetadata crate → Bool) (before after : List (DistributionMetadata crate))
      (x : DistributionMetadata crate)
      → p x ≡ true
      → any p after ≡ false
      → find_last crate p (before ++ x ∷ after) ≡ some x
  unfolding find_last
  find_last_behind p [] after x h k = rw (find_last-none p after k, find_last) (rw h refl)
  find_last_behind p (y ∷ before) after x h k =
      rw (find_last_behind p before after x h k, find_last) refl

  find_last_sound :
      (p : DistributionMetadata crate → Bool) (xs : List (DistributionMetadata crate))
      (x : DistributionMetadata crate)
      → find_last crate p xs ≡ some x
      → p x ≡ true
  unfolding find_last
  find_last_sound p [] x h = cc
  find_last_sound p (y ∷ xs) x h = elim (Option-cases (find_last crate p xs)) [
    | inr (z, e) ↦ find_last_sound p xs x (e ∙ (rw (e, find_last) at h))
    | inl e ↦ elim (Bool-cases (p y)) [
      | inl k ↦ subst (λ l. p l ≡ true) (some_inj (rw (e, k, find_last) at h)) k
      | inr k ↦ let q = (rw (e, k, find_last) at h) in cc
    ]
  ]

  has_script_id_sound :
      (id : Text) (entry : DistributionMetadata crate)
      → has_script_id crate id entry ≡ true
      → entry.script_id ≡ some id
  unfolding has_script_id
  has_script_id_sound id entry h = elim (Option-cases entry.script_id) [
    | inl e ↦ let q = (rw (e, has_script_id) at h) in cc
    | inr (own, e) ↦ e ∙ ap some (text_eq_sound own id (rw (e, has_script_id) at h))
  ]

  has_script_id-own :
      (id : Text) (entry : DistributionMetadata crate)
      → entry.script_id ≡ some id
      → has_script_id crate id entry ≡ true
  unfolding has_script_id
  has_script_id-own id entry h = rw (h, has_script_id) (text_eq_refl id)

  -- Of the records whose script id is the one asked for, the last is chosen.
  pub select_distribution_metadata_for_script-last :
      (id : Text) (before after : List (DistributionMetadata crate))
      (entry : DistributionMetadata crate)
      → entry.script_id ≡ some id
      → any (has_script_id crate id) after ≡ false
      → select_distribution_metadata_for_script crate (before ++ entry ∷ after) id ≡ ok entry
  unfolding select_distribution_metadata_for_script
  select_distribution_metadata_for_script-last id before after entry h k =
      rw
        (
          find_last_behind (has_script_id crate id) before after entry
              (has_script_id-own id entry h) k,
          select_distribution_metadata_for_script,
        )
        refl

  all_nameless :
      (entries : List (DistributionMetadata crate))
      → All (HasId crate) entries
      → all (λ entry. not (is_some entry.script_id)) entries ≡ true
      → entries ≡ []
  all_nameless [] h k = refl
  all_nameless (x ∷ xs) (own, rest) k = let q = (rw own at k) in cc

  -- Of a page with more than one record, what is chosen for a script is a record with that script's
  -- id, or the answer that it was not found, which has neither a version nor the URL of one.
  pub select-parse_distribution_entries :
      (body id : Text) (entries : List (DistributionMetadata crate))
      (chosen : DistributionMetadata crate)
      → parse_distribution_entries crate body ≡ ok entries
      → is_single crate entries ≡ false
      → select_distribution_metadata_for_script crate entries id ≡ ok chosen
      → (chosen.script_id ≡ some id) ⊎ ((chosen.latest_version ≡ none) × (chosen.latest_url ≡ none))
  unfolding select_distribution_metadata_for_script not_found first_entry
  select-parse_distribution_entries body id entries chosen parsed several h =
      elim (Option-cases (find_last crate (has_script_id crate id) entries)) [
        | inr (entry, e) ↦
            let same = ok_inj (rw (e, select_distribution_metadata_for_script) at h) in
            inl (
              subst (λ c. c.script_id ≡ some id) same
                (has_script_id_sound id entry
                  (find_last_sound (has_script_id crate id) entries entry e)))
        | inl e ↦ elim (Bool-cases (all (λ entry. not (is_some entry.script_id)) entries)) [
          | inr k ↦
              let same =
                ok_inj (rw (e, several, k, select_distribution_metadata_for_script) at h) in
              inr (ap (λ c. c.latest_version) (sym same), ap (λ c. c.latest_url) (sym same))
          | inl k ↦
              let none_left =
                all_nameless entries (parse_distribution_entries-HasId crate body entries parsed)
                  k in
              let q = (rw (e, several, k, select_distribution_metadata_for_script) at h) in
              let r = subst (λ l. first_entry crate l ≡ ok chosen) none_left q in cc
        ]
      ]
