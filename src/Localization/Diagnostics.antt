-- ===== src/Localization/Diagnostics.antt =====
-- `diagnostic`: the bounded list of issues of src/core/localization.rs.
use scriptmetakit.Chars.{Text, codes}
use scriptmetakit.Prelude.{
  ℕ, zero, suc, ◌+◌, ◌≤◌, ◌<◌, List, [], ◌∷◌, ◌++◌, Option, none, ltb, lt→ltb, if◌then◌else◌,
  length, take, length-append, ◌≡◌, refl, sym, ap, ◌∙◌, arith, append-nil, append_assoc, leb,
  leb→le, Bool-cases, inl, inr,
}

pub record MetadataDiagnostic : Type 0 where
  pub code : Text
  pub field : Text
  pub language : Option Text
  pub line : Option ℕ

abbrev pub limit : ℕ
limit = 64

abbrev pub truncated : MetadataDiagnostic
truncated = record {
  code = codes "diagnostics_truncated";
  field = [];
  language = none;
  line = none;
}

-- `if let Some(last) = diagnostics.last_mut() { *last = … }`
unfoldable pub replace_last : MetadataDiagnostic → List MetadataDiagnostic → List MetadataDiagnostic
replace_last d [] = []
replace_last d (x ∷ []) = d ∷ []
replace_last d (x ∷ y ∷ ys) = x ∷ replace_last d (y ∷ ys)

unfoldable pub diagnostic :
    List MetadataDiagnostic → Text → Text → Option Text → Option ℕ → List MetadataDiagnostic
diagnostic diagnostics code field language line =
    if ltb (length diagnostics) limit
    then diagnostics ++ record { code = code; field = field; language = language; line = line } ∷ []
    else replace_last truncated diagnostics

-- The calls of `diagnostic` for a sequence of issues.
unfoldable pub report : List MetadataDiagnostic → List MetadataDiagnostic → List MetadataDiagnostic
report diagnostics [] = diagnostics
report diagnostics (d ∷ ds) = report (diagnostic diagnostics d.code d.field d.language d.line) ds

replace_last-concat :
    (d x : MetadataDiagnostic) (xs : List MetadataDiagnostic)
    → replace_last d (xs ++ x ∷ []) ≡ xs ++ d ∷ []
unfolding replace_last
replace_last-concat d x [] = refl
replace_last-concat d x (y ∷ []) = refl
replace_last-concat d x (y ∷ z ∷ zs) = ap (λ l. y ∷ l) (replace_last-concat d x (z ∷ zs))

abbrev marked : List MetadataDiagnostic → List MetadataDiagnostic
marked xs = xs ++ truncated ∷ []

report-marked :
    (xs ds : List MetadataDiagnostic) → length xs ≡ 63 → report (marked xs) ds ≡ marked xs
unfolding report diagnostic
report-marked xs [] h = refl
report-marked xs (d ∷ ds) h =
    rw (length-append xs (truncated ∷ []))
      (rw h (rw (replace_last-concat truncated truncated xs) (report-marked xs ds h)))

-- With 63 diagnostics and more issues than one to come, the marker ends the list.
report-over :
    (xs : List MetadataDiagnostic) (d e : MetadataDiagnostic) (ds : List MetadataDiagnostic)
    → length xs ≡ 63
    → report xs (d ∷ e ∷ ds) ≡ marked xs
unfolding report diagnostic
report-over xs d e ds h = rw h (
    rw (length-append xs (d ∷ []))
      (rw h (rw (replace_last-concat truncated d xs) (report-marked xs ds h))))

pub cut : ℕ → List MetadataDiagnostic → List MetadataDiagnostic
cut zero [] = []
cut zero (d ∷ []) = d ∷ []
cut zero (d ∷ e ∷ ds) = truncated ∷ []
cut (suc room) [] = []
cut (suc room) (d ∷ ds) = d ∷ cut room ds

report-cut :
    (room : ℕ) (xs ds : List MetadataDiagnostic)
    → length xs + room ≡ 63
    → report xs ds ≡ xs ++ cut room ds
unfolding report diagnostic cut
report-cut zero xs [] h = sym (append-nil xs)
report-cut zero xs (d ∷ []) h = let e : length xs ≡ 63 = omega arith in rw e refl
report-cut zero xs (d ∷ e ∷ ds) h = report-over xs d e ds (omega arith)
report-cut (suc room) xs [] h = sym (append-nil xs)
report-cut (suc room) xs (d ∷ ds) h = rw (lt→ltb (length xs) limit (omega arith)) (
    report-cut room (xs ++ d ∷ []) ds (omega (arith, length-append xs (d ∷ [])))
    ∙ append_assoc xs (d ∷ []) _)

cut-short : (room : ℕ) (ds : List MetadataDiagnostic) → length ds ≤ suc room → cut room ds ≡ ds
unfolding cut
cut-short zero [] h = refl
cut-short zero (d ∷ []) h = refl
cut-short zero (d ∷ e ∷ ds) h = absurd (omega arith)
cut-short (suc room) [] h = refl
cut-short (suc room) (d ∷ ds) h = ap (λ l. d ∷ l) (cut-short room ds (omega arith))

cut-long :
    (room : ℕ) (ds : List MetadataDiagnostic)
    → suc room < length ds
    → cut room ds ≡ take room ds ++ truncated ∷ []
unfolding cut
cut-long zero [] h = absurd (omega arith)
cut-long zero (d ∷ []) h = absurd (omega arith)
cut-long zero (d ∷ e ∷ ds) h = refl
cut-long (suc room) [] h = absurd (omega arith)
cut-long (suc room) (d ∷ ds) h = ap (λ l. d ∷ l) (cut-long room ds (omega arith))

-- Reporting any issues, from an empty list, leaves all of them if there are at most 64, and
-- otherwise the first 63 and the marker of the truncation: never more than 64.
pub report-bounded :
    (issues : List MetadataDiagnostic)
    → report [] issues
      ≡ (if leb (length issues) limit then issues else take 63 issues ++ truncated ∷ [])
report-bounded issues = elim (Bool-cases (leb (length issues) limit)) [
  | inl e ↦ rw e (report-cut 63 [] issues refl ∙ cut-short 63 issues (leb→le _ _ e))
  | inr e ↦ rw e (report-cut 63 [] issues refl ∙ cut-long 63 issues (ground arith))
]

length-replace_last :
    (d : MetadataDiagnostic) (xs : List MetadataDiagnostic) → length (replace_last d xs) ≡ length xs
unfolding replace_last
length-replace_last d [] = refl
length-replace_last d (x ∷ []) = refl
length-replace_last d (x ∷ y ∷ ys) = omega (arith, length-replace_last d (y ∷ ys))

-- A list within the limit stays within it.
pub length-diagnostic :
    (diagnostics : List MetadataDiagnostic) (code field : Text) (language : Option Text)
    (line : Option ℕ)
    → length diagnostics ≤ limit
    → length (diagnostic diagnostics code field language line) ≤ limit
unfolding diagnostic
length-diagnostic diagnostics code field language line h =
    elim (Bool-cases (ltb (length diagnostics) limit)) [
      | inl e ↦
          let size =
            length-append diagnostics
              (record { code = code; field = field; language = language; line = line } ∷ []) in
          rw (e, diagnostic) (ground (arith, size, e))
      | inr e ↦ rw (e, diagnostic) (rw (length-replace_last truncated diagnostics) h)
    ]
