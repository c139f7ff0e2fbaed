-- ===== src/Version/Grammar.antt =====
-- The grammar of version numbers, and the loop of `normalize_version_string` over the dotted
-- components.
use scriptmetakit.Chars.{Text, is_ascii_digit}
use scriptmetakit.Prelude.{
  ℕ, zero, suc, ◌≤◌, ◌≡◌, refl, sym, ap, ◌∙◌, true, false, [], ◌∷◌, ◌++◌, arith, length, All, Holds,
  Fails, HeadFails, take_while, drop_while, inl, inr, take_while-append, drop_while-append,
  take_while-All, drop_while-HeadFails, Bool-cases, ◌==◌, take_while-append-drop_while,
  take_while_of_HeadFails, length-drop_while-le, append_assoc, length-append, ==_iff,
}
use scriptmetakit.Version.{component, components}

-- At least one character, and digits only.
abbrev pub IsDigits : Text → Type 0
IsDigits [] = ⊥
IsDigits (d ∷ ds) = All (Holds is_ascii_digit) (d ∷ ds)

-- ("." digits)*
pub data IsTail : Text → Type 0 where
  stop : IsTail []
  more : {s : Text} (ds t : Text) → s ≡ b'.' ∷ (ds ++ t) → IsDigits ds → IsTail t → IsTail s

-- digits ("." digits)*
pub record IsVersion (v : Text) : Type 0 where
  pub first : Text
  pub tail : Text
  pub splits : v ≡ first ++ tail
  pub digits : IsDigits first
  pub dotted : IsTail tail

-- What follows cannot continue a version number.
abbrev pub Stops : Text → Type 0
Stops [] = Unit
Stops (c ∷ s) = (is_ascii_digit c ≡ false) × ((c == b'.') ≡ true → HeadFails is_ascii_digit s)

-- `v` is the leftmost longest version number of `s`.
pub record IsFirstVersion (s v : Text) : Type 0 where
  pub before : Text
  pub after : Text
  pub splits : s ≡ before ++ (v ++ after)
  pub is_version : IsVersion v
  pub leftmost : All (Fails is_ascii_digit) before
  pub longest : Stops after

pub IsDigits-All : (ds : Text) → IsDigits ds → All (Holds is_ascii_digit) ds
IsDigits-All [] h = elim h [ ]
IsDigits-All (d ∷ ds) h = h

pub Stops-HeadFails : (s : Text) → Stops s → HeadFails is_ascii_digit s
Stops-HeadFails [] h = tt
Stops-HeadFails (c ∷ s) h = h.0

pub tail-HeadFails :
    (t after : Text) → IsTail t → Stops after → HeadFails is_ascii_digit (t ++ after)
unfolding is_ascii_digit
tail-HeadFails t after stop h = Stops-HeadFails after h
tail-HeadFails t after (more ds u e _ _) h = rw e refl

component-cons : (ds later : Text) → IsDigits ds → component ds later ≡ b'.' ∷ (ds ++ later)
unfolding component
component-cons [] later h = elim h [ ]
component-cons (d ∷ ds) later h = refl

components-Stops : (f : ℕ) (after : Text) → Stops after → components f after ≡ []
unfolding components component
components-Stops zero after h = refl
components-Stops (suc f) [] h = refl
components-Stops (suc f) (c ∷ s) h = elim (Bool-cases (c == b'.')) [
  | inl e ↦ rw (e, take_while_of_HeadFails is_ascii_digit s (h.1 e)) refl
  | inr e ↦ rw e refl
]

-- One round of the loop.
components-dot :
    (f : ℕ) (ds rest : Text)
    → IsDigits ds
    → HeadFails is_ascii_digit rest
    → components (suc f) (b'.' ∷ (ds ++ rest)) ≡ b'.' ∷ (ds ++ components f rest)
unfolding components
components-dot f ds rest h k =
    rw
      (
        take_while-append is_ascii_digit ds rest (IsDigits-All ds h) k,
        drop_while-append is_ascii_digit ds rest (IsDigits-All ds h) k,
      )
      (component-cons ds (components f rest) h)

dotted-append :
    (t after ds u : Text) → t ≡ b'.' ∷ (ds ++ u) → t ++ after ≡ b'.' ∷ (ds ++ (u ++ after))
dotted-append t after ds u e = rw (e, append_assoc ds u after) refl

-- The loop reads exactly the dotted components.
pub components-append :
    (f : ℕ) (t after : Text)
    → IsTail t
    → Stops after
    → length (t ++ after) ≤ f
    → components f (t ++ after) ≡ t
components-append f t after stop h le = components-Stops f after h
components-append zero t after (more ds u e _ _) h le =
    absurd (omega (arith, ap length (dotted-append t after ds u e)))
components-append (suc f) t after (more ds u e hd tl) h le = rw (dotted-append t after ds u e) (
    components-dot f ds (u ++ after) hd (tail-HeadFails u after tl h)
    ∙ rw (components-append f u after tl h (shorter f t after ds u e le)) (sym e))
  where
    shorter :
        (f : ℕ) (t after ds u : Text)
        → t ≡ b'.' ∷ (ds ++ u)
        → length (t ++ after) ≤ suc f
        → length (u ++ after) ≤ f
    shorter f t after ds u e le =
        omega (arith, ap length (dotted-append t after ds u e), length-append ds (u ++ after))

-- What the loop returns is a list of dotted components, and what it leaves cannot continue it.
pub record TailOf (s : Text) (t : Text) : Type 0 where
  pub after : Text
  pub splits : s ≡ t ++ after
  pub is_tail : IsTail t
  pub stops : Stops after

HeadFails-of_take_while : (s : Text) → take_while is_ascii_digit s ≡ [] → HeadFails is_ascii_digit s
HeadFails-of_take_while [] e = tt
HeadFails-of_take_while (c ∷ s) e = ground arith

component-TailOf :
    (s ds later : Text)
    → take_while is_ascii_digit s ≡ ds
    → TailOf (drop_while is_ascii_digit s) later
    → TailOf (b'.' ∷ s) (component ds later)
unfolding component is_ascii_digit
component-TailOf s [] later e r = record {
  after = b'.' ∷ s;
  splits = refl;
  is_tail = stop;
  stops = (refl, λ _. HeadFails-of_take_while s e);
}
component-TailOf s (d ∷ ds) later e r = record {
  after = r.after;
  splits =
      ap (λ l. b'.' ∷ l)
        (sym (take_while-append-drop_while is_ascii_digit s)
          ∙ rw (e, r.splits) (sym (append_assoc (d ∷ ds) later r.after)));
  is_tail = more (d ∷ ds) later refl (rw e at (take_while-All is_ascii_digit s)) r.is_tail;
  stops = r.stops;
}

pub components-TailOf :
    (f : ℕ) (s : Text) → length s ≤ f → HeadFails is_ascii_digit s → TailOf s (components f s)
unfolding components
components-TailOf f [] le h =
    rw (components-Stops f [] tt) (record { after = []; splits = refl; is_tail = stop; stops = tt })
components-TailOf zero (c ∷ s) le h = absurd (omega arith)
components-TailOf (suc f) (c ∷ s) le h = elim (Bool-cases (c == b'.')) [
  | inl e ↦
      rw (e, (==_iff c b'.').0 e)
        (component-TailOf s (take_while is_ascii_digit s) _ refl (
          components-TailOf f (drop_while is_ascii_digit s)
            (omega (arith, length-drop_while-le is_ascii_digit s))
            (drop_while-HeadFails is_ascii_digit s)))
  | inr e ↦ rw e (record { after = c ∷ s; splits = refl; is_tail = stop; stops = (h, λ k. cc) })
]
