-- ===== src/Parser/Urls/Quotes.antt =====
-- The loop of `normalize_metadata_url` that takes quotes and white space off both ends.
use scriptmetakit.Chars.Shrinks.{
  Shrinks, Shrinks-trans, Shrinks-behind, drop_while-Shrinks, trim_end-Shrinks,
}
use scriptmetakit.Chars.Trim.{trim_idem}
use scriptmetakit.Chars.{Text, trim, trim_start, trim_end, is_whitespace, is_empty}
use scriptmetakit.Parser.Urls.{
  UrlCrate, is_quote, trim_end_quotes, unquote_once, unquote, unquoted, normalize_metadata_url,
}
use scriptmetakit.Prelude.{
  ℕ, zero, suc, ◌≤◌, true, ◌&&◌, [], ◌∷◌, ◌==◌, ==_iff, length, drop_while, ◌≡◌, refl, sym, ap, ◌∙◌,
  Bool-cases, inl, inr, arith,
}

trim_end_quotes-Shrinks : (s : Text) → Shrinks s (trim_end_quotes s)
unfolding trim_end_quotes
trim_end_quotes-Shrinks [] = inl refl
trim_end_quotes-Shrinks (c ∷ s) = elim (Bool-cases (is_quote c && is_empty (trim_end_quotes s))) [
  | inl e ↦ rw (e, trim_end_quotes) (inr (omega arith))
  | inr e ↦
      rw (e, trim_end_quotes) (Shrinks-behind c s (trim_end_quotes s) (trim_end_quotes-Shrinks s))
]

unquote_once-Shrinks : (s : Text) → Shrinks s (unquote_once s)
unfolding unquote_once trim trim_start
unquote_once-Shrinks s =
    let open_quotes = drop_while is_quote s in
    let bare = trim_end_quotes open_quotes in
    let start = drop_while is_whitespace bare in
    Shrinks-trans s open_quotes _ (drop_while-Shrinks is_quote s) (
      Shrinks-trans open_quotes bare _ (trim_end_quotes-Shrinks open_quotes) (
        Shrinks-trans bare start _ (drop_while-Shrinks is_whitespace bare)
          (trim_end-Shrinks start)))

unquote_once-nil : unquote_once [] ≡ []
unfolding unquote_once trim trim_start trim_end trim_end_quotes
unquote_once-nil = refl

unquote_fixed :
    (fuel : ℕ) (value : Text)
    → length value ≤ fuel
    → unquote_once (unquote fuel value) ≡ unquote fuel value
unfolding unquote
unquote_fixed zero [] h = unquote_once-nil
unquote_fixed zero (c ∷ value) h = absurd (omega (arith, h))
unquote_fixed (suc fuel) value h = elim (Bool-cases (length (unquote_once value) == length value)) [
  | inl e ↦
      rw (e, unquote)
        (elim (unquote_once-Shrinks value) [ inl k ↦ k | inr k ↦ absurd (ground (arith, e, k)) ])
  | inr e ↦
      rw (e, unquote)
        (unquote_fixed fuel (unquote_once value) (elim (unquote_once-Shrinks value) [
          | inl k ↦ let same = ap length k in absurd (ground (arith, e, same))
          | inr k ↦ omega (arith, h, k)
        ]))
]

-- The loop ends by itself: on its result a further round changes nothing.
pub unquoted_fixed : (value : Text) → unquote_once (unquoted value) ≡ unquoted value
unfolding unquoted
unquoted_fixed value = unquote_fixed (length (trim value)) (trim value) (omega arith)

unquote_of_fixed :
    (fuel : ℕ) (value : Text) → unquote_once value ≡ value → unquote fuel value ≡ value
unfolding unquote
unquote_of_fixed zero value h = refl
unquote_of_fixed (suc fuel) value h =
    let same : (length (unquote_once value) == length value) ≡ true =
      (==_iff _ _).1 (ap length h) in
    rw (same, unquote) refl

fixed_trimmed : (value : Text) → unquote_once value ≡ value → trim value ≡ value
unfolding unquote_once
fixed_trimmed value h = ap trim (sym h) ∙ trim_idem _ ∙ h

pub unquoted_idem : (value : Text) → unquoted (unquoted value) ≡ unquoted value
unfolding unquoted
unquoted_idem value =
    let fixed = unquoted_fixed value in
    rw (fixed_trimmed (unquoted value) fixed, unquoted) (unquote_of_fixed _ (unquoted value) fixed)

-- A value is read like the value without its surrounding quotes and white space.
pub normalize_metadata_url-unquoted :
    (crate : UrlCrate) (value : Text)
    → normalize_metadata_url crate (unquoted value) ≡ normalize_metadata_url crate value
unfolding normalize_metadata_url
normalize_metadata_url-unquoted crate value = rw (unquoted_idem value, normalize_metadata_url) refl
