-- ===== src/Chars/Distinct.antt =====
-- Texts without repetitions: `if !result.contains(&x) { result.push(x) }`, and what it makes of
-- a sequence of texts.
use scriptmetakit.Chars.{Text, text_eq, text_eq_iff}
use scriptmetakit.Prelude.{
  Bool, true, not, ◌||◌, List, [], ◌∷◌, ◌++◌, append-nil, append_assoc, ◌≡◌, refl, sym, ap, ◌∙◌,
  arith, any, filter, if◌then◌else◌, Bool-cases, Elem, Elem-append, Elem-any, inl, inr, All,
  All-concat,
}

abbrev pub contains : List Text → Text → Bool
contains xs x = any (text_eq x) xs

unfoldable pub push_new : Text → List Text → List Text
push_new x xs = if contains xs x then xs else xs ++ x ∷ []

abbrev pub Distinct : List Text → Type 0
Distinct [] = Unit
Distinct (x ∷ xs) = (Elem x xs → ⊥) × Distinct xs

abbrev other_than : Text → List Text → List Text
other_than x xs = filter (λ y. not (text_eq y x)) xs

-- Each text once, where it first stands.
unfoldable pub first_appearances : List Text → List Text
first_appearances [] = []
first_appearances (x ∷ xs) = x ∷ other_than x (first_appearances xs)

abbrev fresh : List Text → List Text → List Text
fresh seen xs = filter (λ y. not (contains seen y)) xs

-- All of `xs` pushed behind `acc`.
unfoldable pub push_all : List Text → List Text → List Text
push_all acc [] = acc
push_all acc (x ∷ xs) = push_all (push_new x acc) xs

fresh-other_than :
    (seen : List Text) (x : Text) (xs : List Text)
    → contains seen x ≡ true
    → fresh seen (other_than x xs) ≡ fresh seen xs
fresh-other_than seen x [] h = refl
fresh-other_than seen x (y ∷ ys) h = elim (Bool-cases (text_eq y x)) [
  | inl e ↦
      let k = ap (contains seen) ((text_eq_iff y x).0 e) ∙ h in
      rw e (rw k (fresh-other_than seen x ys h))
  | inr e ↦ rw e (ground (arith, fresh-other_than seen x ys h))
]

contains-concat :
    (seen : List Text) (x y : Text) → contains (seen ++ x ∷ []) y ≡ (contains seen y || text_eq y x)
contains-concat [] x y = ground arith
contains-concat (z ∷ zs) x y = ground (arith, contains-concat zs x y)

fresh-concat :
    (seen : List Text) (x : Text) (xs : List Text)
    → fresh (seen ++ x ∷ []) xs ≡ fresh seen (other_than x xs)
fresh-concat seen x [] = refl
fresh-concat seen x (y ∷ ys) = rw (contains-concat seen x y) (elim (Bool-cases (text_eq y x)) [
  | inl e ↦ rw e (ground (arith, fresh-concat seen x ys))
  | inr e ↦ rw e (ground (arith, fresh-concat seen x ys))
])

push_all-fresh : (acc xs : List Text) → push_all acc xs ≡ acc ++ fresh acc (first_appearances xs)
unfolding push_all push_new first_appearances
push_all-fresh acc [] = sym (append-nil acc)
push_all-fresh acc (x ∷ xs) = elim (Bool-cases (contains acc x)) [
  | inl e ↦ rw e (
      push_all-fresh acc xs
      ∙ ap (λ l. acc ++ l) (sym (fresh-other_than acc x (first_appearances xs) e)))
  | inr e ↦ rw e (
      push_all-fresh (acc ++ x ∷ []) xs
      ∙ append_assoc acc (x ∷ []) _
      ∙ ap (λ l. acc ++ x ∷ l) (fresh-concat acc x (first_appearances xs)))
]

fresh-nil : (xs : List Text) → fresh [] xs ≡ xs
fresh-nil [] = refl
fresh-nil (x ∷ xs) = ap (λ l. x ∷ l) (fresh-nil xs)

pub push_all-first_appearances : (xs : List Text) → push_all [] xs ≡ first_appearances xs
push_all-first_appearances xs = push_all-fresh [] xs ∙ fresh-nil (first_appearances xs)

pub All-other_than {ℓ} :
    (P : Text → Type ℓ) (x : Text) (xs : List Text) → All P xs → All P (other_than x xs)
All-other_than P x [] h = tt
All-other_than P x (y ∷ ys) h = elim (Bool-cases (text_eq y x)) [
  | inl e ↦ rw e (All-other_than P x ys h.1)
  | inr e ↦ rw e (h.0, All-other_than P x ys h.1)
]

pub All-first_appearances {ℓ} :
    (P : Text → Type ℓ) (xs : List Text) → All P xs → All P (first_appearances xs)
unfolding first_appearances
All-first_appearances P [] h = tt
All-first_appearances P (x ∷ xs) h =
    (h.0, All-other_than P x (first_appearances xs) (All-first_appearances P xs h.1))

other_than_idem : (x : Text) (xs : List Text) → other_than x (other_than x xs) ≡ other_than x xs
other_than_idem x [] = refl
other_than_idem x (y ∷ ys) = elim (Bool-cases (text_eq y x)) [
  | inl e ↦ rw e (other_than_idem x ys)
  | inr e ↦ rw e (rw e (ap (λ l. y ∷ l) (other_than_idem x ys)))
]

other_than_comm :
    (x y : Text) (xs : List Text) → other_than x (other_than y xs) ≡ other_than y (other_than x xs)
other_than_comm x y [] = refl
other_than_comm x y (z ∷ zs) = elim (Bool-cases (text_eq z x)) [
  | inl e ↦ elim (Bool-cases (text_eq z y)) [
    | inl k ↦ rw (e, k) (other_than_comm x y zs)
    | inr k ↦ rw (e, k) (rw e (other_than_comm x y zs))
  ]
  | inr e ↦ elim (Bool-cases (text_eq z y)) [
    | inl k ↦ rw (e, k) (other_than_comm x y zs)
    | inr k ↦ rw (e, k) (rw e (ap (λ l. z ∷ l) (other_than_comm x y zs)))
  ]
]

first_appearances-other_than :
    (x : Text) (xs : List Text)
    → first_appearances (other_than x xs) ≡ other_than x (first_appearances xs)
unfolding first_appearances
first_appearances-other_than x [] = refl
first_appearances-other_than x (y ∷ ys) = elim (Bool-cases (text_eq y x)) [
  | inl e ↦ rw e (
      first_appearances-other_than x ys
      ∙ sym (other_than_idem x (first_appearances ys))
      ∙ ap (λ z. other_than x (other_than z (first_appearances ys))) (sym ((text_eq_iff y x).0 e)))
  | inr e ↦ rw e (
      ap (λ l. y ∷ l)
        (ap (other_than y) (first_appearances-other_than x ys)
          ∙ other_than_comm y x (first_appearances ys)))
]

pub first_appearances_idem :
    (xs : List Text) → first_appearances (first_appearances xs) ≡ first_appearances xs
unfolding first_appearances
first_appearances_idem [] = refl
first_appearances_idem (x ∷ xs) =
    ap (λ l. x ∷ l)
      (ap (other_than x) (
          first_appearances-other_than x (first_appearances xs)
          ∙ ap (other_than x) (first_appearances_idem xs))
        ∙ other_than_idem x (first_appearances xs))

Distinct-concat :
    (xs : List Text) (x : Text) → Distinct xs → (Elem x xs → ⊥) → Distinct (xs ++ x ∷ [])
Distinct-concat [] x h k = ((λ m. m), tt)
Distinct-concat (y ∷ ys) x (new_y, h) k = (
  (λ m. elim (Elem-append y ys (x ∷ []) m) [
    | inl old ↦ new_y old
    | inr (inl same) ↦ k (inl (sym same))
    | inr (inr none_left) ↦ absurd none_left
  ]),
  Distinct-concat ys x h (λ m. k (inr m)),
)

Distinct-push_new : (x : Text) (xs : List Text) → Distinct xs → Distinct (push_new x xs)
unfolding push_new
Distinct-push_new x xs h = elim (Bool-cases (contains xs x)) [
  | inl e ↦ rw (e, push_new) h
  | inr e ↦
      rw (e, push_new)
        (Distinct-concat xs x h
          (λ m. let q = Elem-any (text_eq x) xs x m ((text_eq_iff x x).1 refl) in cc))
]

pub Distinct-push_all : (acc xs : List Text) → Distinct acc → Distinct (push_all acc xs)
unfolding push_all
Distinct-push_all acc [] h = h
Distinct-push_all acc (x ∷ xs) h = Distinct-push_all (push_new x acc) xs (Distinct-push_new x acc h)

All-push_new {ℓ} :
    (P : Text → Type ℓ) (x : Text) (xs : List Text) → P x → All P xs → All P (push_new x xs)
unfolding push_new
All-push_new P x xs k h = elim (Bool-cases (contains xs x)) [
  | inl e ↦ rw (e, push_new) h
  | inr e ↦ rw (e, push_new) (All-concat P xs x h k)
]

pub All-push_all {ℓ} :
    (P : Text → Type ℓ) (acc xs : List Text) → All P acc → All P xs → All P (push_all acc xs)
unfolding push_all
All-push_all P acc [] h k = h
All-push_all P acc (x ∷ xs) h k =
    All-push_all P (push_new x acc) xs (All-push_new P x acc k.0 h) k.1
