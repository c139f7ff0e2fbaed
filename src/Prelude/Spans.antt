-- ===== src/Prelude/Spans.antt =====
-- The laws of `take_while` and `drop_while`, which split a list where a test first fails.
use mathlib.Core.Bool.{Bool, true, false}
use mathlib.Core.List.{List, [], ◌∷◌, ◌++◌}
use mathlib.Core.Logic.{inl, inr}
use mathlib.Core.Path.{◌≡◌, refl, ap}
use Prim.Native.Nat.{◌≤◌}
use native.Mathlib.Omega.{arith}
use scriptmetakit.Prelude.Lists.{take_while, drop_while, filter, All, HeadFails, length}
use scriptmetakit.Prelude.Tests.{Bool-cases}

abbrev pub Holds {ℓ} : {A : Type ℓ} → (A → Bool) → A → Type 0
Holds p x = p x ≡ true

abbrev pub Fails {ℓ} : {A : Type ℓ} → (A → Bool) → A → Type 0
Fails p x = p x ≡ false

module _ {ℓ} {A : Type ℓ} (p : A → Bool) where
  pub take_while-append-drop_while : (xs : List A) → take_while p xs ++ drop_while p xs ≡ xs
  take_while-append-drop_while [] = refl
  take_while-append-drop_while (x ∷ xs) = ground (arith, take_while-append-drop_while xs)

  pub take_while-All : (xs : List A) → All (Holds p) (take_while p xs)
  take_while-All [] = tt
  take_while-All (x ∷ xs) = elim (Bool-cases (p x)) [
    | inl h ↦ rw h (h, take_while-All xs)
    | inr h ↦ rw h tt
  ]

  pub drop_while-HeadFails : (xs : List A) → HeadFails p (drop_while p xs)
  drop_while-HeadFails [] = tt
  drop_while-HeadFails (x ∷ xs) = elim (Bool-cases (p x)) [
    | inl h ↦ rw h (drop_while-HeadFails xs)
    | inr h ↦ rw h h
  ]

  pub take_while_of_HeadFails : (xs : List A) → HeadFails p xs → take_while p xs ≡ []
  take_while_of_HeadFails [] h = refl
  take_while_of_HeadFails (x ∷ xs) h = rw h

  pub drop_while_of_HeadFails : (xs : List A) → HeadFails p xs → drop_while p xs ≡ xs
  drop_while_of_HeadFails [] h = refl
  drop_while_of_HeadFails (x ∷ xs) h = rw h

  -- A list whose elements pass, followed by one that does not begin so, is split in between.
  pub take_while-append :
      (xs ys : List A) → All (Holds p) xs → HeadFails p ys → take_while p (xs ++ ys) ≡ xs
  take_while-append [] ys h k = take_while_of_HeadFails ys k
  take_while-append (x ∷ xs) ys h k = rw h.0 (ap (λ l. x ∷ l) (take_while-append xs ys h.1 k))

  pub drop_while-append :
      (xs ys : List A) → All (Holds p) xs → HeadFails p ys → drop_while p (xs ++ ys) ≡ ys
  drop_while-append [] ys h k = drop_while_of_HeadFails ys k
  drop_while-append (x ∷ xs) ys h k = rw h.0 (drop_while-append xs ys h.1 k)

  pub take_while_of_All : (xs : List A) → All (Holds p) xs → take_while p xs ≡ xs
  take_while_of_All [] h = refl
  take_while_of_All (x ∷ xs) h = rw h.0 (ap (λ l. x ∷ l) (take_while_of_All xs h.1))

  pub drop_while_of_All : (xs : List A) → All (Holds p) xs → drop_while p xs ≡ []
  drop_while_of_All [] h = refl
  drop_while_of_All (x ∷ xs) h = rw h.0 (drop_while_of_All xs h.1)

  -- An element that fails ends the prefix.
  pub take_while-stop :
      (xs : List A) (y : A) (ys : List A)
      → p y ≡ false
      → take_while p (xs ++ y ∷ ys) ≡ take_while p xs
  take_while-stop [] y ys h = rw h refl
  take_while-stop (x ∷ xs) y ys h = rw (take_while-stop xs y ys h) refl

  pub drop_while-stop :
      (xs : List A) (y : A) (ys : List A)
      → p y ≡ false
      → drop_while p (xs ++ y ∷ ys) ≡ drop_while p xs ++ y ∷ ys
  drop_while-stop [] y ys h = rw h refl
  drop_while-stop (x ∷ xs) y ys h = elim (Bool-cases (p x)) [
    | inl e ↦ rw e (drop_while-stop xs y ys h)
    | inr e ↦ rw e refl
  ]

  pub length-drop_while-le : (xs : List A) → length (drop_while p xs) ≤ length xs
  length-drop_while-le [] = omega arith
  length-drop_while-le (x ∷ xs) = ground (arith, length-drop_while-le xs)

  pub filter_of_All : (xs : List A) → All (Holds p) xs → filter p xs ≡ xs
  filter_of_All [] h = refl
  filter_of_All (x ∷ xs) h = rw h.0 (ap (λ l. x ∷ l) (filter_of_All xs h.1))

  pub All-append : (xs ys : List A) → All (Holds p) xs → All (Holds p) ys → All (Holds p) (xs ++ ys)
  All-append [] ys h k = k
  All-append (x ∷ xs) ys h k = (h.0, All-append xs ys h.1 k)

  pub All-split : (xs ys : List A) → All (Holds p) (xs ++ ys) → All (Holds p) xs × All (Holds p) ys
  All-split [] ys h = (tt, h)
  All-split (x ∷ xs) ys h = ((h.0, (All-split xs ys h.1).0), (All-split xs ys h.1).1)

  pub filter-All : (xs : List A) → All (Holds p) (filter p xs)
  filter-All [] = tt
  filter-All (x ∷ xs) = elim (Bool-cases (p x)) [
    | inl h ↦ rw h (h, filter-All xs)
    | inr h ↦ rw h (filter-All xs)
  ]

module _ {ℓ} {A : Type ℓ} where
  pub All-imp {κ ι} :
      {P : A → Type κ} {Q : A → Type ι} (xs : List A) → ((x : A) → P x → Q x) → All P xs → All Q xs
  All-imp [] f h = tt
  All-imp (x ∷ xs) f h = (f x h.0, All-imp xs f h.1)

  pub All-drop_while {κ} :
      (P : A → Type κ) (p : A → Bool) (xs : List A) → All P xs → All P (drop_while p xs)
  All-drop_while P p [] h = tt
  All-drop_while P p (x ∷ xs) h = elim (Bool-cases (p x)) [
    | inl e ↦ rw e (All-drop_while P p xs h.1)
    | inr e ↦ rw e h
  ]
