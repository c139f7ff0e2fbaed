-- ===== src/Watch/Plan/Grow.antt =====
-- How the physical roots grow: a root keeps its index and its path, and covers more and more.
use scriptmetakit.Chars.{text_eq, text_eq_refl}
use scriptmetakit.Prelude.{
  ℕ, zero, suc, ◌-◌, ◌≡◌, refl, ap, ◌∙◌, Bool, true, List, [], ◌∷◌, ◌++◌, Option, none, some, arith,
  Bool-cases, inl, inr, length, get_elem?, any, some_inj, length-append, any-append_left,
  any-append_last,
}
use scriptmetakit.Watch.Plan.{position, cover_root, cover_at}
use scriptmetakit.Watch.Types.{RootId, PhysicalWatchRoot}

abbrev pub Lists : RootId → PhysicalWatchRoot → Type 0
Lists id root = any (text_eq id) root.covers_root_ids ≡ true

-- A physical root that covers at least what another does.
pub record Grown (r r' : PhysicalWatchRoot) : Type 0 where
  pub same_path : r'.path ≡ r.path
  pub keeps : (id : RootId) → Lists id r → Lists id r'

abbrev pub Extends : List PhysicalWatchRoot → List PhysicalWatchRoot → Type 0
Extends rs rs' =
    (i : ℕ) (r : PhysicalWatchRoot)
    → get_elem? rs i ≡ some r
    → (r' : PhysicalWatchRoot) × (get_elem? rs' i ≡ some r') × Grown r r'

pub Grown-refl : (r : PhysicalWatchRoot) → Grown r r
Grown-refl r = record { same_path = refl; keeps = λ id h. h }

pub Extends-refl : (rs : List PhysicalWatchRoot) → Extends rs rs
Extends-refl rs i r h = (r, h, Grown-refl r)

pub Extends-trans :
    (xs ys zs : List PhysicalWatchRoot) → Extends xs ys → Extends ys zs → Extends xs zs
Extends-trans xs ys zs f g i r h =
    let b = f i r h in
    let c = g i b.0 b.1 in
    (
      c.0,
      c.1,
      record {
        same_path = c.2.same_path ∙ b.2.same_path;
        keeps = λ id k. c.2.keeps id (b.2.keeps id k);
      },
    )

pub Extends-append :
    (rs : List PhysicalWatchRoot) (x : PhysicalWatchRoot) → Extends rs (rs ++ x ∷ [])
Extends-append [] x i r h = cc
Extends-append (y ∷ rs) x zero r h = (r, h, Grown-refl r)
Extends-append (y ∷ rs) x (suc i) r h = Extends-append rs x i r h

pub get_elem?-last :
    (rs : List PhysicalWatchRoot) (x : PhysicalWatchRoot)
    → get_elem? (rs ++ x ∷ []) (length (rs ++ x ∷ []) - 1) ≡ some x
get_elem?-last rs x = rw (last_index rs x) (at_length rs x)
  where
    at_length :
        (rs : List PhysicalWatchRoot) (x : PhysicalWatchRoot)
        → get_elem? (rs ++ x ∷ []) (length rs) ≡ some x
    at_length [] x = refl
    at_length (y ∷ rs) x = at_length rs x

    last_index :
        (rs : List PhysicalWatchRoot) (x : PhysicalWatchRoot)
        → length (rs ++ x ∷ []) - 1 ≡ length rs
    last_index rs x = omega (arith, length-append rs (x ∷ []))

position-zero {ℓ} :
    {A : Type ℓ} (p : A → Bool) (x : A) (xs : List A) → position p (x ∷ xs) ≡ some 0 → p x ≡ true
unfolding position
position-zero p x xs h = ground arith

position-suc {ℓ} :
    {A : Type ℓ} (p : A → Bool) (x : A) (xs : List A) (i : ℕ)
    → position p (x ∷ xs) ≡ some (suc i)
    → position p xs ≡ some i
unfolding position
position-suc p x xs i h = ground arith

pub position-some {ℓ} :
    {A : Type ℓ} (p : A → Bool) (xs : List A) (i : ℕ)
    → position p xs ≡ some i
    → (x : A) × (get_elem? xs i ≡ some x) × (p x ≡ true)
position-some p [] i h = absurd (unfold position in none-some h)
  where
    none-some : {j : ℕ} → ◌≡◌ {A = Option ℕ} none (some j) → ⊥
    none-some e = cc
position-some p (x ∷ xs) zero h = (x, refl, position-zero p x xs h)
position-some p (x ∷ xs) (suc i) h = position-some p xs i (position-suc p x xs i h)

pub Grown-cover_root : (id : RootId) (r : PhysicalWatchRoot) → Grown r (cover_root id r)
unfolding cover_root
Grown-cover_root id r = elim (Bool-cases (any (text_eq id) r.covers_root_ids)) [
  | inl e ↦ rw (e, cover_root) (Grown-refl r)
  | inr e ↦
      rw (e, cover_root)
        (record { same_path = refl; keeps = λ other h. any-append_left _ r.covers_root_ids _ h })
]

pub Lists-cover_root : (id : RootId) (r : PhysicalWatchRoot) → Lists id (cover_root id r)
unfolding cover_root
Lists-cover_root id r = elim (Bool-cases (any (text_eq id) r.covers_root_ids)) [
  | inl e ↦ rw (e, cover_root) e
  | inr e ↦ rw (e, cover_root) (any-append_last (text_eq id) r.covers_root_ids id (text_eq_refl id))
]

pub Extends-cover_at :
    (index : ℕ) (id : RootId) (rs : List PhysicalWatchRoot) → Extends rs (cover_at index id rs)
unfolding cover_at
Extends-cover_at zero id [] i r h = cc
Extends-cover_at (suc index) id [] i r h = cc
Extends-cover_at zero id (x ∷ rs) zero r h =
    (cover_root id r, ap (λ y. some (cover_root id y)) (some_inj h), Grown-cover_root id r)
Extends-cover_at zero id (x ∷ rs) (suc i) r h = (r, h, Grown-refl r)
Extends-cover_at (suc index) id (x ∷ rs) zero r h = (r, h, Grown-refl r)
Extends-cover_at (suc index) id (x ∷ rs) (suc i) r h = Extends-cover_at index id rs i r h

pub cover_at-Lists :
    (index : ℕ) (id : RootId) (rs : List PhysicalWatchRoot) (r : PhysicalWatchRoot)
    → get_elem? rs index ≡ some r
    → get_elem? (cover_at index id rs) index ≡ some (cover_root id r)
unfolding cover_at
cover_at-Lists zero id [] r h = cc
cover_at-Lists (suc index) id [] r h = cc
cover_at-Lists zero id (x ∷ rs) r h = ap (λ y. some (cover_root id y)) (some_inj h)
cover_at-Lists (suc index) id (x ∷ rs) r h = cover_at-Lists index id rs r h
