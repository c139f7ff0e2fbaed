-- ===== src/Localization/Select/Subtags.antt =====
-- The candidates of a language, told from its subtags.
use scriptmetakit.Chars.{Text}
use scriptmetakit.Localization.Select.{
  rsplit_once, one_byte, last_part_is_single, before_last, unless_empty, broader, chain,
  lookup_candidates,
}
use scriptmetakit.Prelude.{
  ℕ, zero, suc, ◌≤◌, Bool, false, List, [], ◌∷◌, ◌++◌, Option, none, some, ◌==◌, ltb, if◌then◌else◌,
  length, length-append, ◌≡◌, refl, ap, arith, All, Bool-cases, inl, inr, any,
}

-- The subtags of a language, the last one first, joined by dashes.
abbrev pub joined : List Text → Text
joined [] = []
joined (tag ∷ []) = tag
joined (tag ∷ next ∷ tags) = joined (next ∷ tags) ++ b'-' ∷ tag

-- One byte: such a subtag introduces an extension, and does not stand at the end.
abbrev pub is_single : Text → Bool
is_single [] = false
is_single (c ∷ []) = ltb c 128
is_single (c ∷ d ∷ tag) = false

-- RFC 4647, lookup: the last subtag is removed, and with it a single one in front of it.
abbrev pub fallbacks : List Text → List Text
fallbacks [] = []
fallbacks (tag ∷ []) = tag ∷ []
fallbacks (tag ∷ next ∷ tags) =
    let later = fallbacks (next ∷ tags) in
    let shorter = fallbacks tags in
    joined (tag ∷ next ∷ tags) ∷ (if is_single next then shorter else later)

-- A subtag is not empty and has no dash.
abbrev pub IsSubtag : Text → Type 0
IsSubtag tag = (1 ≤ length tag) × (any (λ c. c == b'-') tag ≡ false)

rsplit_once-none : (tag : Text) → any (λ c. c == b'-') tag ≡ false → rsplit_once b'-' tag ≡ none
unfolding rsplit_once
rsplit_once-none [] h = refl
rsplit_once-none (c ∷ tag) h =
    let first : (c == b'-') ≡ false = ground (arith, h) in
    rw (rsplit_once-none tag (ground (arith, h)), rsplit_once) (rw first refl)

rsplit_once-last :
    (front tag : Text)
    → any (λ c. c == b'-') tag ≡ false
    → rsplit_once b'-' (front ++ b'-' ∷ tag) ≡ some (front, tag)
unfolding rsplit_once
rsplit_once-last [] tag h = rw (rsplit_once-none tag h, rsplit_once) refl
rsplit_once-last (c ∷ front) tag h = rw (rsplit_once-last front tag h, rsplit_once) refl

one_byte-is_single : (tag : Text) → one_byte tag ≡ is_single tag
unfolding one_byte
one_byte-is_single [] = refl
one_byte-is_single (c ∷ []) = refl
one_byte-is_single (c ∷ d ∷ tag) = refl

last_part_is_single-joined :
    (tag : Text) (tags : List Text)
    → All IsSubtag (tag ∷ tags)
    → last_part_is_single (joined (tag ∷ tags)) ≡ is_single tag
unfolding last_part_is_single
last_part_is_single-joined tag [] h =
    rw (rsplit_once-none tag h.0.1, last_part_is_single) (one_byte-is_single tag)
last_part_is_single-joined tag (next ∷ tags) h =
    rw (rsplit_once-last (joined (next ∷ tags)) tag h.0.1, last_part_is_single)
      (one_byte-is_single tag)

before_last-joined :
    (tag next : Text) (tags : List Text)
    → All IsSubtag (tag ∷ next ∷ tags)
    → before_last (joined (tag ∷ next ∷ tags)) ≡ some (joined (next ∷ tags))
unfolding before_last
before_last-joined tag next tags h =
    rw (rsplit_once-last (joined (next ∷ tags)) tag h.0.1, before_last) refl

before_last-single : (tag : Text) → IsSubtag tag → before_last tag ≡ none
unfolding before_last
before_last-single tag h = rw (rsplit_once-none tag h.1, before_last) refl

joined-full :
    (tag : Text) (tags : List Text) → All IsSubtag (tag ∷ tags) → 1 ≤ length (joined (tag ∷ tags))
joined-full tag [] h = h.0.0
joined-full tag (next ∷ tags) h = omega (arith, length-append (joined (next ∷ tags)) (b'-' ∷ tag))

unless_empty-full : (s : Text) → 1 ≤ length s → unless_empty s ≡ some s
unfolding unless_empty
unless_empty-full [] h = absurd (omega (arith, h))
unless_empty-full (c ∷ s) h = refl

-- The language behind one, as a list of subtags.
abbrev first_language : List Text → Option Text
first_language [] = none
first_language (tag ∷ tags) = some (joined (tag ∷ tags))

abbrev behind : List Text → List Text
behind [] = []
behind (tag ∷ []) = []
behind (tag ∷ next ∷ tags) = if is_single next then tags else next ∷ tags

broader-joined :
    (tag : Text) (tags : List Text)
    → All IsSubtag (tag ∷ tags)
    → broader (joined (tag ∷ tags)) ≡ first_language (behind (tag ∷ tags))
unfolding broader
broader-joined tag [] h = rw (before_last-single tag h.0, broader) refl
broader-joined tag (next ∷ []) h =
    rw (before_last-joined tag next [] h, broader)
      (rw (last_part_is_single-joined next [] h.1) (elim (Bool-cases (is_single next)) [
        | inl e ↦ rw e (rw (before_last-single next h.1.0) refl)
        | inr e ↦ rw e (unless_empty-full next h.1.0.0)
      ]))
broader-joined tag (next ∷ third ∷ tags) h =
    rw (before_last-joined tag next (third ∷ tags) h, broader)
      (rw (last_part_is_single-joined next (third ∷ tags) h.1) (elim (Bool-cases (is_single next)) [
        | inl e ↦ rw e (
            rw (before_last-joined next third tags h.1)
              (unless_empty-full (joined (third ∷ tags)) (joined-full third tags h.1.1)))
        | inr e ↦
            rw e (
              unless_empty-full (joined (next ∷ third ∷ tags))
                (joined-full next (third ∷ tags) h.1))
      ]))

joined-shorter :
    (next : Text) (tags : List Text) → length (joined tags) ≤ length (joined (next ∷ tags))
joined-shorter next [] = omega arith
joined-shorter next (tag ∷ tags) = omega (arith, length-append (joined (tag ∷ tags)) (b'-' ∷ next))

-- With as much fuel as the language is long, and no less.
chain-fallbacks :
    (tags : List Text) (fuel : ℕ)
    → All IsSubtag tags
    → length (joined tags) ≤ fuel
    → chain fuel (first_language tags) ≡ fallbacks tags
unfolding chain
chain-fallbacks [] fuel h k = refl
chain-fallbacks (tag ∷ tags) zero h k = absurd (omega (arith, k, joined-full tag tags h))
chain-fallbacks (tag ∷ []) (suc fuel) h k = rw (broader-joined tag [] h) refl
chain-fallbacks (tag ∷ next ∷ tags) (suc fuel) h k =
    rw (broader-joined tag (next ∷ tags) h) (elim (Bool-cases (is_single next)) [
      | inl e ↦ rw e (
          ap (λ l. joined (tag ∷ next ∷ tags) ∷ l)
            (chain-fallbacks tags fuel h.1.1 (
              omega (
                arith,
                k,
                joined-shorter next tags,
                length-append (joined (next ∷ tags)) (b'-' ∷ tag),
              ))))
      | inr e ↦ rw e (
          ap (λ l. joined (tag ∷ next ∷ tags) ∷ l)
            (chain-fallbacks (next ∷ tags) fuel h.1
              (omega (arith, k, length-append (joined (next ∷ tags)) (b'-' ∷ tag)))))
    ])

-- The candidates of a language are its fallbacks by lookup.
pub lookup_candidates-joined :
    (tags : List Text) → All IsSubtag tags → lookup_candidates (joined tags) ≡ fallbacks tags
unfolding lookup_candidates chain unless_empty
lookup_candidates-joined [] h = refl
lookup_candidates-joined (tag ∷ tags) h =
    rw (unless_empty-full (joined (tag ∷ tags)) (joined-full tag tags h), lookup_candidates)
      (chain-fallbacks (tag ∷ tags) (length (joined (tag ∷ tags))) h (omega arith))
