-- ===== src/Version/Normalize.antt =====
-- `normalize_version_string` finds the leftmost longest version number of the text without its
-- white space.
use scriptmetakit.Chars.{Text, is_ascii_digit, is_whitespace}
use scriptmetakit.Prelude.{
  ℕ, ◌≡◌, refl, sym, ap, ◌∙◌, true, false, not, [], ◌∷◌, ◌++◌, some, length, All, Holds, Fails,
  take_while, drop_while, ◌↔◌, inl, inr, take_while-append, drop_while-append, take_while-All,
  drop_while-HeadFails, Bool-cases, take_while-append-drop_while, append_assoc, some_inj, All-split,
  filter-All, append-nil, filter_of_All,
}
use mathlib.Core.Path.{subst}
use native.Mathlib.Nat.{le_refl}
use scriptmetakit.Version.{components, scan_version, compact, normalize_version_string}
use scriptmetakit.Version.Grammar.{
  IsDigits, IsTail, Stops, IsFirstVersion, tail-HeadFails, components-append, components-TailOf,
}

scan_version-digit :
    (c : ℕ) (s : Text)
    → is_ascii_digit c ≡ true
    → scan_version (c ∷ s)
      ≡ some (
          c
          ∷ (take_while is_ascii_digit s
              ++ components (length (drop_while is_ascii_digit s)) (drop_while is_ascii_digit s)))
unfolding scan_version
scan_version-digit c s h = rw h

scan_version-skip :
    (before s : Text)
    → All (Fails is_ascii_digit) before
    → scan_version (before ++ s) ≡ scan_version s
unfolding scan_version
scan_version-skip [] s h = refl
scan_version-skip (c ∷ before) s h = rw h.0 (scan_version-skip before s h.1)

number_at : ℕ → Text → Text
number_at c s =
    c
    ∷ (take_while is_ascii_digit s
        ++ components (length (drop_while is_ascii_digit s)) (drop_while is_ascii_digit s))

number_at-IsFirstVersion :
    (c : ℕ) (s : Text) → is_ascii_digit c ≡ true → IsFirstVersion (c ∷ s) (number_at c s)
unfolding number_at
number_at-IsFirstVersion c s h =
    let digits = take_while is_ascii_digit s in
    let rest = drop_while is_ascii_digit s in
    let r =
      components-TailOf (length rest) rest (le_refl _) (drop_while-HeadFails is_ascii_digit s) in
    record {
      before = [];
      after = r.after;
      splits =
          ap (λ l. c ∷ l)
            (sym (take_while-append-drop_while is_ascii_digit s)
              ∙ ap (λ l. digits ++ l) r.splits
              ∙ sym (append_assoc digits _ r.after));
      is_version = record {
        first = c ∷ digits;
        tail = components (length rest) rest;
        splits = refl;
        digits = (h, take_while-All is_ascii_digit s);
        dotted = r.is_tail;
      };
      leftmost = tt;
      longest = r.stops;
    }

IsFirstVersion-cons :
    (c : ℕ) (s v : Text) → is_ascii_digit c ≡ false → IsFirstVersion s v → IsFirstVersion (c ∷ s) v
IsFirstVersion-cons c s v h r = record {
  before = c ∷ r.before;
  after = r.after;
  splits = ap (λ l. c ∷ l) r.splits;
  is_version = r.is_version;
  leftmost = (h, r.leftmost);
  longest = r.longest;
}

scan_version_sound : (s v : Text) → scan_version s ≡ some v → IsFirstVersion s v
unfolding scan_version number_at
scan_version_sound [] v h = cc
scan_version_sound (c ∷ s) v h = elim (Bool-cases (is_ascii_digit c)) [
  | inl e ↦
      subst (IsFirstVersion (c ∷ s)) (some_inj (sym (scan_version-digit c s e) ∙ h))
        (number_at-IsFirstVersion c s e)
  | inr e ↦ IsFirstVersion-cons c s v e (scan_version_sound s v (rw e at h))
]

scan_version-append :
    (ds t after : Text)
    → IsDigits ds
    → IsTail t
    → Stops after
    → scan_version ((ds ++ t) ++ after) ≡ some (ds ++ t)
scan_version-append [] t after h tl st = elim h [ ]
scan_version-append (d ∷ ds) t after h tl st =
    scan_version-digit d ((ds ++ t) ++ after) h.0
    ∙ rw
        (
          append_assoc ds t after,
          take_while-append is_ascii_digit ds (t ++ after) h.1 (tail-HeadFails t after tl st),
          drop_while-append is_ascii_digit ds (t ++ after) h.1 (tail-HeadFails t after tl st),
          components-append (length (t ++ after)) t after tl st (le_refl _),
        )
        refl

scan_version_complete : (s v : Text) → IsFirstVersion s v → scan_version s ≡ some v
scan_version_complete s v h =
    let n = h.is_version in
    rw (h.splits, scan_version-skip h.before (v ++ h.after) h.leftmost, n.splits)
      (scan_version-append n.first n.tail h.after n.digits n.dotted h.longest)

-- Normalising a text gives `some v` exactly if `v` is the leftmost longest version number, digits
-- joined by single dots, of the text without its white space.
pub normalize_version_string_iff :
    (value v : Text) → (normalize_version_string value ≡ some v) ↔ IsFirstVersion (compact value) v
unfolding normalize_version_string
normalize_version_string_iff value v =
    (scan_version_sound (compact value) v, scan_version_complete (compact value) v)

kept_middle :
    (value v : Text) → IsFirstVersion (compact value) v → All (Holds (λ c. not (is_whitespace c))) v
unfolding compact
kept_middle value v r =
    let p = λ (c : ℕ). not (is_whitespace c) in
    (All-split p v r.after (All-split p r.before _ (rw r.splits at (filter-All p value))).1).0

-- A normalised version is its own normal form.
pub normalize_version_string_idem :
    (value v : Text) → normalize_version_string value ≡ some v → normalize_version_string v ≡ some v
unfolding compact
normalize_version_string_idem value v h =
    let r = (normalize_version_string_iff value v).0 h in
    (normalize_version_string_iff v v).1 (
      rw (filter_of_All (λ c. not (is_whitespace c)) v (kept_middle value v r)) (record {
        before = [];
        after = [];
        splits = sym (append-nil v);
        is_version = r.is_version;
        leftmost = tt;
        longest = tt;
      }))
