-- ===== src/Watch/Plan/Order.antt =====
-- The order of the candidates.
use native.Mathlib.Nat.{le_trans}
use scriptmetakit.Prelude.{
  ◌≤◌, ◌≡◌, ◌≢◌, refl, List, [], ◌∷◌, arith, All, All-imp, length, Ordering, Elem, inl, inr, ◌⊎◌,
  ◌↔◌,
}
use scriptmetakit.Watch.Plan.{Candidate, compare_candidate, insert_candidate, sort_candidates}

-- The candidates come in the order of their depth.
abbrev pub Deeper : Candidate → Candidate → Type 0
Deeper c x = length c.watch_path ≤ length x.watch_path

abbrev pub InOrder : List Candidate → Type 0
InOrder [] = Unit
InOrder (c ∷ cs) = All (Deeper c) cs × InOrder cs

Deeper-gt : (c x : Candidate) → compare_candidate c x ≡ Ordering.gt → Deeper x c
unfolding compare_candidate
Deeper-gt c x h = ground arith

Deeper-not_gt : (c x : Candidate) → compare_candidate c x ≢ Ordering.gt → Deeper c x
unfolding compare_candidate
Deeper-not_gt c x h = ground arith

-- Which of the two goes first.
data Placed (c x : Candidate) : Type 0 where
  after : compare_candidate c x ≡ Ordering.gt → Placed c x
  before : compare_candidate c x ≢ Ordering.gt → Placed c x

place_by : (c x : Candidate) (o : Ordering) → compare_candidate c x ≡ o → Placed c x
place_by c x Ordering.gt e = after e
place_by c x Ordering.lt e = before (λ h. cc)
place_by c x Ordering.eq e = before (λ h. cc)

place : (c x : Candidate) → Placed c x
place c x = place_by c x (compare_candidate c x) refl

insert_after :
    (c x : Candidate) (xs : List Candidate)
    → compare_candidate c x ≡ Ordering.gt
    → insert_candidate c (x ∷ xs) ≡ x ∷ insert_candidate c xs
unfolding insert_candidate
insert_after c x xs h = rw (h, insert_candidate) refl

insert_before :
    (c x : Candidate) (xs : List Candidate)
    → compare_candidate c x ≢ Ordering.gt
    → insert_candidate c (x ∷ xs) ≡ c ∷ x ∷ xs
unfolding insert_candidate
insert_before c x xs h = ground arith

insert-All :
    (P : Candidate → Type 0) (c : Candidate) (xs : List Candidate)
    → P c
    → All P xs
    → All P (insert_candidate c xs)
insert-All P c [] h k = unfold insert_candidate in (h, tt)
insert-All P c (x ∷ xs) h k = elim (place c x) [
  | after e ↦ rw (insert_after c x xs e) (k.0, insert-All P c xs h k.1)
  | before e ↦ rw (insert_before c x xs e) (h, k)
]

insert-InOrder :
    (c : Candidate) (xs : List Candidate) → InOrder xs → InOrder (insert_candidate c xs)
insert-InOrder c [] h = unfold insert_candidate in (tt, tt)
insert-InOrder c (x ∷ xs) h = elim (place c x) [
  | after e ↦
      rw (insert_after c x xs e)
        (insert-All (Deeper x) c xs (Deeper-gt c x e) h.0, insert-InOrder c xs h.1)
  | before e ↦
      let le = Deeper-not_gt c x e in
      rw (insert_before c x xs e) ((le, All-imp xs (λ y k. le_trans le k) h.0), h)
]

pub sort_candidates-InOrder : (cs : List Candidate) → InOrder (sort_candidates cs)
unfolding sort_candidates
sort_candidates-InOrder [] = tt
sort_candidates-InOrder (c ∷ cs) =
    insert-InOrder c (sort_candidates cs) (sort_candidates-InOrder cs)

insert-Elem :
    (a c : Candidate) (xs : List Candidate) → Elem a (insert_candidate c xs) ↔ Elem a (c ∷ xs)
insert-Elem a c [] = unfold insert_candidate in (λ m. m, λ m. m)
insert-Elem a c (x ∷ xs) = elim (place c x) [
  | after e ↦ rw (insert_after c x xs e) (swap_first (insert-Elem a c xs))
  | before e ↦ rw (insert_before c x xs e) (λ m. m, λ m. m)
]
  where
    there :
        Elem a (insert_candidate c xs) ↔ Elem a (c ∷ xs)
        → (x ≡ a) ⊎ Elem a (insert_candidate c xs)
        → Elem a (c ∷ x ∷ xs)
    there e (inl h) = inr (inl h)
    there e (inr m) = elim (e.0 m) [ inl h ↦ inl h | inr k ↦ inr (inr k) ]

    back :
        Elem a (insert_candidate c xs) ↔ Elem a (c ∷ xs)
        → (c ≡ a) ⊎ ((x ≡ a) ⊎ Elem a xs)
        → Elem a (x ∷ insert_candidate c xs)
    back e (inl h) = inr (e.1 (inl h))
    back e (inr (inl h)) = inl h
    back e (inr (inr m)) = inr (e.1 (inr m))

    swap_first :
        Elem a (insert_candidate c xs) ↔ Elem a (c ∷ xs)
        → Elem a (x ∷ insert_candidate c xs) ↔ Elem a (c ∷ x ∷ xs)
    swap_first e = (there e, back e)

pub sort_candidates-Elem :
    (a : Candidate) (cs : List Candidate) → Elem a (sort_candidates cs) ↔ Elem a cs
unfolding sort_candidates
sort_candidates-Elem a [] = (λ m. m, λ m. m)
sort_candidates-Elem a (c ∷ cs) =
    let e = insert-Elem a c (sort_candidates cs) in
    let r = sort_candidates-Elem a cs in
    (
      λ m. elim (e.0 m) [ inl h ↦ inl h | inr k ↦ inr (r.0 k) ],
      λ m. e.1 (elim m [ inl h ↦ inl h | inr k ↦ inr (r.1 k) ]),
    )

pub sort_candidates-All :
    (P : Candidate → Type 0) (cs : List Candidate) → All P cs → All P (sort_candidates cs)
unfolding sort_candidates
sort_candidates-All P [] h = tt
sort_candidates-All P (c ∷ cs) h =
    insert-All P c (sort_candidates cs) h.0 (sort_candidates-All P cs h.1)
