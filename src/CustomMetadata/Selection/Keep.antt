-- ===== src/CustomMetadata/Selection/Keep.antt =====
-- `CustomMetadataSelection::new`: which keys the selection contains.
use scriptmetakit.Chars.{Text, text_eq, text_eq_iff, text_eq_refl, eq_ignore_ascii_case}
use scriptmetakit.CustomMetadata.Keys.Normal.{
  normalize_custom_metadata_key_idem, normalize_custom_metadata_key-all_keys,
}
use scriptmetakit.CustomMetadata.Keys.{normalize_custom_metadata_key}
use scriptmetakit.CustomMetadata.Selection.Subset.{eq_trans, eq_sym}
use scriptmetakit.CustomMetadata.Selection.{
  all_keys, CustomMetadataSelection, insert_key, sort_keys, keep_key, dedup, finish, add_keys, new,
  is_all, contains,
}
use scriptmetakit.Errors.{ok, ok_inj, Result-cases}
use scriptmetakit.Paths.{compare_text}
use scriptmetakit.Prelude.{
  Bool, true, false, ◌||◌, List, [], ◌∷◌, ◌++◌, any, Ordering, ◌≡◌, refl, sym, ap, ◌∙◌, subst,
  arith, Bool-cases, inl, inr, ◌⊎◌, All, All-concat,
}

Ordering-cases : (o : Ordering) → (o ≡ Ordering.gt) ⊎ ((o ≡ Ordering.lt) ⊎ (o ≡ Ordering.eq))
Ordering-cases Ordering.gt = inl refl
Ordering-cases Ordering.lt = inr (inl refl)
Ordering-cases Ordering.eq = inr (inr refl)

or_swap : (a b c : Bool) → (a || (b || c)) ≡ (b || (a || c))
or_swap a b c = ground arith

or_twice : (a b : Bool) → (a || b) ≡ (a || (a || b))
or_twice a b = ground arith

module _ (p : Text → Bool) where
  any-insert_key : (key : Text) (xs : List Text) → any p (insert_key key xs) ≡ (p key || any p xs)
  unfolding insert_key
  any-insert_key key [] = refl
  any-insert_key key (x ∷ xs) = elim (Ordering-cases (compare_text key x)) [
    | inl e ↦
        rw (e, insert_key)
          (ap (λ b. p x || b) (any-insert_key key xs) ∙ or_swap (p x) (p key) (any p xs))
    | inr (inl e) ↦ rw (e, insert_key) refl
    | inr (inr e) ↦ rw (e, insert_key) refl
  ]

  any-sort_keys : (xs : List Text) → any p (sort_keys xs) ≡ any p xs
  unfolding sort_keys
  any-sort_keys [] = refl
  any-sort_keys (x ∷ xs) = any-insert_key x (sort_keys xs) ∙ ap (λ b. p x || b) (any-sort_keys xs)

  any-keep_key : (key : Text) (xs : List Text) → any p (keep_key key xs) ≡ (p key || any p xs)
  unfolding keep_key
  any-keep_key key [] = refl
  any-keep_key key (x ∷ xs) = elim (Bool-cases (text_eq key x)) [
    | inl e ↦
        rw (e, keep_key)
          (subst (λ k. any p (x ∷ xs) ≡ (p k || any p (x ∷ xs))) (sym ((text_eq_iff key x).0 e))
            (or_twice (p x) (any p xs)))
    | inr e ↦ rw (e, keep_key) refl
  ]

  any-dedup : (xs : List Text) → any p (dedup xs) ≡ any p xs
  unfolding dedup
  any-dedup [] = refl
  any-dedup (x ∷ xs) = any-keep_key x (dedup xs) ∙ ap (λ b. p x || b) (any-dedup xs)

  any-kept : (xs : List Text) → any p (dedup (sort_keys xs)) ≡ any p xs
  any-kept xs = any-dedup (sort_keys xs) ∙ any-sort_keys xs

-- Some of `keys` is `key` or the prefix `X-`, in any case.
abbrev pub asks : List Text → Text → Bool
asks keys key = any (λ k. eq_ignore_ascii_case k all_keys || eq_ignore_ascii_case k key) keys

abbrev IsNormal : Text → Type 0
IsNormal v = normalize_custom_metadata_key v ≡ ok v

insert_key-All :
    (P : Text → Type 0) (k : Text) (xs : List Text) → P k → All P xs → All P (insert_key k xs)
unfolding insert_key
insert_key-All P k [] h hs = (h, tt)
insert_key-All P k (x ∷ xs) h hs = elim (Ordering-cases (compare_text k x)) [
  | inl e ↦ rw (e, insert_key) (hs.0, insert_key-All P k xs h hs.1)
  | inr (inl e) ↦ rw (e, insert_key) (h, hs)
  | inr (inr e) ↦ rw (e, insert_key) (h, hs)
]

sort_keys-All : (P : Text → Type 0) (xs : List Text) → All P xs → All P (sort_keys xs)
unfolding sort_keys
sort_keys-All P [] h = tt
sort_keys-All P (x ∷ xs) h = insert_key-All P x (sort_keys xs) h.0 (sort_keys-All P xs h.1)

keep_key-All :
    (P : Text → Type 0) (k : Text) (xs : List Text) → P k → All P xs → All P (keep_key k xs)
unfolding keep_key
keep_key-All P k [] h hs = (h, tt)
keep_key-All P k (x ∷ xs) h hs = elim (Bool-cases (text_eq k x)) [
  | inl e ↦ rw (e, keep_key) hs
  | inr e ↦ rw (e, keep_key) (h, hs)
]

dedup-All : (P : Text → Type 0) (xs : List Text) → All P xs → All P (dedup xs)
unfolding dedup
dedup-All P [] h = tt
dedup-All P (x ∷ xs) h = keep_key-All P x (dedup xs) h.0 (dedup-All P xs h.1)

normal-is_all : (xs : List Text) → All IsNormal xs → is_all xs ≡ false
unfolding is_all
normal-is_all [] h = refl
normal-is_all (x ∷ xs) h = elim (Bool-cases (text_eq x all_keys)) [
  | inr e ↦ e
  | inl e ↦
      let q = (text_eq_iff x all_keys).0 e in
      absurd (normalize_custom_metadata_key-all_keys all_keys (subst IsNormal q h.0))
]

-- What the loop leaves: the selection of all keys, or the normal forms kept of all values.
finish-contains :
    (values : List Text) (every : Bool) (key : Text)
    → All IsNormal values
    → contains (finish values every) key ≡ (every || any (λ v. eq_ignore_ascii_case v key) values)
unfolding contains finish is_all
finish-contains values true key h = rw (text_eq_refl all_keys) refl
finish-contains values false key h =
    rw
      (
        normal-is_all (dedup (sort_keys values))
            (dedup-All IsNormal (sort_keys values) (sort_keys-All IsNormal values h)),
        contains,
      )
      (any-kept (λ v. eq_ignore_ascii_case v key) values)

any-concat :
    (p : Text → Bool) (xs : List Text) (y : Text) → any p (xs ++ y ∷ []) ≡ (any p xs || p y)
any-concat p [] y = ground arith
any-concat p (x ∷ xs) y = ground (arith, any-concat p xs y)

eq_same :
    (a b key : Text)
    → eq_ignore_ascii_case a b ≡ true
    → eq_ignore_ascii_case a key ≡ eq_ignore_ascii_case b key
eq_same a b key h = elim (Bool-cases (eq_ignore_ascii_case a key)) [
  | inl e ↦ e ∙ sym (eq_trans b a key (eq_sym a b h) e)
  | inr e ↦ elim (Bool-cases (eq_ignore_ascii_case b key)) [
    | inl f ↦ let q = sym e ∙ eq_trans a b key h f in cc
    | inr f ↦ e ∙ sym f
  ]
]

add_keys-contains :
    (keys values : List Text) (every : Bool) (selection : CustomMetadataSelection) (key : Text)
    → All IsNormal values
    → add_keys values every keys ≡ ok selection
    → contains selection key
      ≡ (every || any (λ v. eq_ignore_ascii_case v key) values || asks keys key)
unfolding add_keys
add_keys-contains [] values every selection key n h =
    ap (λ s. contains s key) (sym (ok_inj h)) ∙ finish-contains values every key n ∙ ground arith
add_keys-contains (k ∷ ks) values every selection key n h =
    elim (Bool-cases (eq_ignore_ascii_case k all_keys)) [
      | inl e ↦
          add_keys-contains ks values true selection key n (rw (e, add_keys) at h)
          ∙ (rw e (ground arith))
      | inr e ↦ elim (Result-cases (normalize_custom_metadata_key k)) [
        | inr (x, f) ↦ let q = (rw (e, f, add_keys) at h) in cc
        | inl (v, f) ↦
            let (same, again) = normalize_custom_metadata_key_idem k v f in
            add_keys-contains ks (values ++ v ∷ []) every selection key
              (All-concat IsNormal values v n again) (rw (e, f, add_keys) at h)
            ∙ (rw (any-concat (λ w. eq_ignore_ascii_case w key) values v)
                (rw (eq_same k v key same) (rw e (ground arith))))
      ]
    ]

-- A selection made of `keys` contains exactly the keys that `keys` has, in any case, and all keys
-- if `keys` has the bare prefix `X-`.
pub new-contains :
    (keys : List Text) (selection : CustomMetadataSelection) (key : Text)
    → new keys ≡ ok selection
    → contains selection key ≡ asks keys key
unfolding new
new-contains keys selection key h = add_keys-contains keys [] false selection key tt h
