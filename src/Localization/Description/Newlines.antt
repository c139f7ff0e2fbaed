-- ===== src/Localization/Description/Newlines.antt =====
-- `normalized_newlines` of src/core/text.rs.
use scriptmetakit.Chars.{Text}
use scriptmetakit.Localization.Description.{newlines, normalized_newlines}
use scriptmetakit.Prelude.{
  ℕ, Bool, true, false, ◌&&◌, [], ◌∷◌, ◌==◌, ◌≡◌, refl, ap, All, Fails, Bool-cases, inl, inr,
}

abbrev pub is_cr : ℕ → Bool
is_cr c = c == 0xd

newlines-All : (after_cr : Bool) (s : Text) → All (Fails is_cr) (newlines after_cr s)
unfolding newlines
newlines-All after_cr [] = tt
newlines-All after_cr (c ∷ s) = elim (Bool-cases (c == 0xd)) [
  | inl e ↦ rw (e, newlines) (refl, newlines-All true s)
  | inr e ↦ elim (Bool-cases (after_cr && c == 0xa)) [
    | inl k ↦ rw (e, newlines) (rw (k, newlines) (newlines-All false s))
    | inr k ↦ rw (e, newlines) (rw (k, newlines) (e, newlines-All false s))
  ]
]

newlines_of_All : (s : Text) → All (Fails is_cr) s → newlines false s ≡ s
unfolding newlines
newlines_of_All [] h = refl
newlines_of_All (c ∷ s) h = rw (h.0, newlines) (ap (λ l. c ∷ l) (newlines_of_All s h.1))

-- The normalised text has no carriage return, and is its own normal form.
pub normalized_newlines_idem :
    (text : Text)
    → All (Fails is_cr) (normalized_newlines text)
      × (normalized_newlines (normalized_newlines text) ≡ normalized_newlines text)
unfolding normalized_newlines
normalized_newlines_idem text =
    (newlines-All false text, newlines_of_All (newlines false text) (newlines-All false text))
