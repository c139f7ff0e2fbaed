-- ===== src/Localization/Select/Fallbacks.antt =====
-- `lookup_candidates`: the chain from a language to the broader ones.
use scriptmetakit.Chars.{Text}
use scriptmetakit.Localization.Select.{
  rsplit_once, last_part_is_single, before_last, unless_empty, broader, chain, lookup_candidates,
}
use scriptmetakit.Prelude.{
  ℕ, zero, suc, ◌≤◌, ◌<◌, List, [], ◌∷◌, ◌++◌, append_assoc, none, some, ◌==◌, ==_iff, length,
  length-append, ◌≡◌, refl, sym, ap, ◌∙◌, arith, All, Option-cases, Bool-cases, inl, inr, some_inj,
  All-imp,
}

-- `c` and what follows it, behind a dash, make up `language`.
abbrev pub IsBroader : Text → Text → Type 0
IsBroader language c = (rest : Text) × (language ≡ c ++ b'-' ∷ rest)

rsplit_once-append :
    (s before after : Text) → rsplit_once b'-' s ≡ some (before, after) → s ≡ before ++ b'-' ∷ after
unfolding rsplit_once
rsplit_once-append [] before after h = cc
rsplit_once-append (x ∷ s) before after h = elim (Option-cases (rsplit_once b'-' s)) [
  | inl e ↦ elim (Bool-cases (x == b'-')) [
    | inl k ↦
        let q = some_inj (rw (e, rsplit_once, k) at h) in
        let d = (==_iff x b'-').0 k in
        let b = ap (λ p. p.0) q in let a = ap (λ p. p.1) q in rw (sym b) (rw (sym a) (rw d refl))
    | inr k ↦ let q = (rw (e, rsplit_once, k) at h) in cc
  ]
  | inr (p, e) ↦
      let q = some_inj (rw (e, rsplit_once) at h) in
      let b = ap (λ p. p.0) q in
      let a = ap (λ p. p.1) q in
      rw (sym b) (ap (λ l. x ∷ l) (rw (sym a) (rsplit_once-append s p.0 p.1 e)))
]

before_last-IsBroader : (s b : Text) → before_last s ≡ some b → IsBroader s b
unfolding before_last
before_last-IsBroader s b h = elim (Option-cases (rsplit_once b'-' s)) [
  | inl e ↦ let q = (rw (e, before_last) at h) in cc
  | inr (p, e) ↦
      (p.1, rw (sym (some_inj (rw (e, before_last) at h))) (rsplit_once-append s p.0 p.1 e))
]

IsBroader-trans : (s b c : Text) → IsBroader s b → IsBroader b c → IsBroader s c
IsBroader-trans s b c (r, e) (q, k) =
    (q ++ b'-' ∷ r, e ∙ ap (λ l. l ++ b'-' ∷ r) k ∙ append_assoc c (b'-' ∷ q) (b'-' ∷ r))

IsBroader-lt : (s b : Text) → IsBroader s b → length b < length s
IsBroader-lt s b (r, e) = rw e (omega (arith, length-append b (b'-' ∷ r)))

unless_empty-eq : (s b : Text) → unless_empty s ≡ some b → (s ≡ b) × (1 ≤ length b)
unfolding unless_empty
unless_empty-eq [] b h = cc
unless_empty-eq (c ∷ s) b h = let e = some_inj h in (e, rw (sym e) (omega arith))

-- A broader language is a proper prefix in front of a dash, and it is not empty.
abbrev pub IsCandidate : Text → Text → Type 0
IsCandidate language c = (1 ≤ length c) × IsBroader language c

broader-IsCandidate : (s b : Text) → broader s ≡ some b → IsCandidate s b
unfolding broader
broader-IsCandidate s b h = elim (Option-cases (before_last s)) [
  | inl e ↦ let q = (rw (e, broader) at h) in cc
  | inr (p, e) ↦ elim (Bool-cases (last_part_is_single p)) [
    | inl k ↦ elim (Option-cases (before_last p)) [
      | inl f ↦ let q = (rw (e, k, f, broader) at h) in cc
      | inr (p', f) ↦
          let q = unless_empty-eq p' b (rw (e, k, f, broader) at h) in
          (
            q.1,
            IsBroader-trans s p b (before_last-IsBroader s p e)
                (before_last-IsBroader p b (f ∙ ap some q.0)),
          )
    ]
    | inr k ↦
        let q = unless_empty-eq p b (rw (e, k, broader) at h) in
        (q.1, before_last-IsBroader s b (e ∙ ap some q.0))
  ]
]

-- The broader languages behind `s`, down to one that has none.
abbrev pub Linked : Text → List Text → Type 0
Linked s [] = broader s ≡ none
Linked s (c ∷ cs) = (broader s ≡ some c) × Linked c cs

chain-Linked : (fuel : ℕ) (s : Text) → length s ≤ suc fuel → Linked s (chain fuel (broader s))
unfolding chain
chain-Linked zero s h = elim (Option-cases (broader s)) [
  | inl e ↦ rw e e
  | inr (b, e) ↦
      let k = broader-IsCandidate s b e in absurd (omega (arith, k.0, IsBroader-lt s b k.1))
]
chain-Linked (suc fuel) s h = elim (Option-cases (broader s)) [
  | inl e ↦ rw e e
  | inr (b, e) ↦
      let k = broader-IsCandidate s b e in
      rw e (e, chain-Linked fuel b (omega (arith, IsBroader-lt s b k.1)))
]

Linked-IsCandidate : (s : Text) (cs : List Text) → Linked s cs → All (IsCandidate s) cs
Linked-IsCandidate s [] h = tt
Linked-IsCandidate s (c ∷ cs) h =
    let k = broader-IsCandidate s c h.0 in
    (k, All-imp cs (λ x q. (q.0, IsBroader-trans s c x k.1 q.1)) (Linked-IsCandidate c cs h.1))

-- The candidates of a language that is not empty begin with the language itself, each is followed
-- by the one that is broader next, and the last has no broader one. Those behind the first are
-- not empty, and are what stands before a dash of the language.
pub lookup_candidates-Linked :
    (c : ℕ) (s : Text)
    → (cs : List Text) × (lookup_candidates (c ∷ s) ≡ (c ∷ s) ∷ cs)
      × Linked (c ∷ s) cs
      × All (IsCandidate (c ∷ s)) cs
unfolding lookup_candidates chain unless_empty
lookup_candidates-Linked c s =
    let cs = chain (length s) (broader (c ∷ s)) in
    let l = chain-Linked (length s) (c ∷ s) (omega arith) in
    (cs, refl, l, Linked-IsCandidate (c ∷ s) cs l)
