-- ===== src/Localization/Select/Choice.antt =====
-- `select_text`: the first candidate with a text is chosen.
use scriptmetakit.Chars.{Text, trim, is_empty, text_eq_refl, text_eq_sound}
use scriptmetakit.Localization.Select.{
  lookup_candidates, Values, get, nonblank, is_default, Selected, default_for, round,
  try_candidates, try_preferences, try_values, without_default, without_preference, select_text,
}
use scriptmetakit.Localization.Select.Subtags.{
  joined, fallbacks, IsSubtag, lookup_candidates-joined,
}
use scriptmetakit.Prelude.{
  map, true, false, ◌↔◌, List, [], ◌∷◌, ◌++◌, Option, none, some, ◌≡◌, refl, sym, ap, ◌∙◌, All,
  Option-cases, Bool-cases, inl, inr, ◌⊎◌, some_inj, subst,
}

-- The candidates of all preferences, in order.
abbrev pub all_candidates : List Text → List Text
all_candidates [] = []
all_candidates (p ∷ ps) = lookup_candidates p ++ all_candidates ps

-- The same of preferences that are told by their subtags.
abbrev pub all_fallbacks : List (List Text) → List Text
all_fallbacks [] = []
all_fallbacks (tags ∷ preferences) = fallbacks tags ++ all_fallbacks preferences

abbrev pub IsLanguage : List Text → Type 0
IsLanguage tags = All IsSubtag tags

all_candidates-joined :
    (preferences : List (List Text))
    → All IsLanguage preferences
    → all_candidates (map joined preferences) ≡ all_fallbacks preferences
all_candidates-joined [] h = refl
all_candidates-joined (tags ∷ preferences) h =
    ap (λ l. l ++ all_candidates (map joined preferences)) (lookup_candidates-joined tags h.0)
    ∙ ap (λ l. fallbacks tags ++ l) (all_candidates-joined preferences h.1)

abbrev pub HasText : Text → Type 0
HasText value = is_empty (trim value) ≡ false

abbrev pub IsBlank : Text → Type 0
IsBlank value = is_empty (trim value) ≡ true

nonblank-IsBlank : (o : Option Text) → nonblank o ≡ none → (v : Text) → o ≡ some v → IsBlank v
unfolding nonblank
nonblank-IsBlank none h v e = cc
nonblank-IsBlank (some w) h v e = elim (Bool-cases (is_empty (trim w))) [
  | inl k ↦ rw (sym (some_inj e)) k
  | inr k ↦ let q = (rw (k, nonblank) at h) in cc
]

IsBlank-nonblank : (o : Option Text) → ((v : Text) → o ≡ some v → IsBlank v) → nonblank o ≡ none
unfolding nonblank
IsBlank-nonblank none h = refl
IsBlank-nonblank (some w) h = rw (h w refl, nonblank) refl

is_default-same :
    (language : Option Text) (c : Text) → language ≡ some c → is_default language c ≡ true
unfolding is_default
is_default-same none c e = cc
is_default-same (some l) c e = rw (some_inj e) (text_eq_refl c)

same-is_default :
    (language : Option Text) (c : Text) → is_default language c ≡ true → language ≡ some c
unfolding is_default
same-is_default none c e = cc
same-is_default (some l) c e = ap some (sym (text_eq_sound c l e))

module _ (default : Option Text) (values : Values) (default_language : Option Text) where
  -- A text is chosen either from the values, with its language, or it is the default.
  abbrev pub IsChosen : Text → Option Text → Type 0
  IsChosen value language =
      HasText value
      × (((c : Text) × (language ≡ some c) × (get values c ≡ some value))
          ⊎ ((default ≡ some value) × (language ≡ default_language)))

  abbrev pub IsSound : Selected → Type 0
  IsSound (none, language) = language ≡ none
  IsSound (some value, language) = IsChosen value language

  abbrev IsText : Selected → Type 0
  IsText (none, language) = ⊥
  IsText (some value, language) = IsChosen value language

  IsText-IsSound : (s : Selected) → IsText s → IsSound s
  IsText-IsSound (none, language) h = absurd h
  IsText-IsSound (some value, language) h = h

  nonblank-HasText : (o : Option Text) (v : Text) → nonblank o ≡ some v → (o ≡ some v) × HasText v
  unfolding nonblank
  nonblank-HasText none v h = cc
  nonblank-HasText (some w) v h = elim (Bool-cases (is_empty (trim w))) [
    | inl e ↦ let q = (rw (e, nonblank) at h) in cc
    | inr e ↦ let q = some_inj (rw (e, nonblank) at h) in (ap some q, rw (sym q) e)
  ]

  value-IsSound : (c v : Text) → nonblank (get values c) ≡ some v → IsChosen v (some c)
  value-IsSound c v h = let k = nonblank-HasText (get values c) v h in (k.1, inl (c, refl, k.0))

  default-IsSound : (v : Text) → nonblank default ≡ some v → IsChosen v default_language
  default-IsSound v h = let k = nonblank-HasText default v h in (k.1, inr (k.0, refl))

  round-IsText :
      (c : Text) (s : Selected) → round default values default_language c ≡ some s → IsText s
  unfolding round default_for
  round-IsText c s h = elim (Option-cases (nonblank (get values c))) [
    | inr (v, e) ↦ subst IsText (some_inj (rw (e, round) at h)) (value-IsSound c v e)
    | inl e ↦ elim (Bool-cases (is_default default_language c)) [
      | inr k ↦ let q = (rw (e, k, round) at h) in cc
      | inl k ↦ elim (Option-cases (nonblank default)) [
        | inl f ↦ let q = (rw (e, k, f, round) at h) in cc
        | inr (v, f) ↦ subst IsText (some_inj (rw (e, k, f, round) at h)) (default-IsSound v f)
      ]
    ]
  ]

  abbrev tried : List Text → Option Selected
  tried = try_candidates default values default_language

  try_candidates-append :
      (cs ds : List Text)
      → tried (cs ++ ds) ≡ (elim (tried cs) [ some s ↦ some s | none ↦ tried ds ])
  unfolding try_candidates
  try_candidates-append [] ds = refl
  try_candidates-append (c ∷ cs) ds =
      elim (Option-cases (round default values default_language c)) [
        | inl e ↦ rw (e, try_candidates) (try_candidates-append cs ds)
        | inr (s, e) ↦ rw (e, try_candidates) refl
      ]

  try_preferences-all_candidates :
      (ps : List Text)
      → try_preferences default values default_language ps ≡ tried (all_candidates ps)
  unfolding try_preferences try_candidates
  try_preferences-all_candidates [] = refl
  try_preferences-all_candidates (p ∷ ps) =
      rw (try_candidates-append (lookup_candidates p) (all_candidates ps))
        (elim (Option-cases (tried (lookup_candidates p))) [
          | inl e ↦ rw (e, try_preferences) (try_preferences-all_candidates ps)
          | inr (s, e) ↦ rw (e, try_preferences) refl
        ])

  -- The values have no text in a language, or a blank one.
  abbrev pub IsBlankAt : Text → Type 0
  IsBlankAt c = (value : Text) → get values c ≡ some value → IsBlank value

  abbrev pub IsDefaultBlank : Type 0
  IsDefaultBlank = (value : Text) → default ≡ some value → IsBlank value

  -- A candidate that offers nothing: the values have no text in it that is not blank, nor is it the
  -- language of a default text that is not blank.
  abbrev pub OffersNothing : Text → Type 0
  OffersNothing c = IsBlankAt c × (default_language ≡ some c → IsDefaultBlank)

  -- A candidate that offers a text: that of the values in its language, and only if there is none
  -- but a blank one, the default text, if the candidate is its language.
  abbrev pub Offers : Text → Text → Type 0
  Offers c value =
      HasText value
      × ((get values c ≡ some value)
          ⊎ (IsBlankAt c × (default_language ≡ some c) × (default ≡ some value)))

  round-none : (c : Text) → (round default values default_language c ≡ none) ↔ OffersNothing c
  unfolding round default_for
  round-none c = (there c, back c)
    where
      there : (c : Text) → round default values default_language c ≡ none → OffersNothing c
      there c h = elim (Option-cases (nonblank (get values c))) [
        | inr (v, e) ↦ let q = (rw (e, round) at h) in cc
        | inl e ↦ (
          nonblank-IsBlank (get values c) e,
          λ same. nonblank-IsBlank default (elim (Option-cases (nonblank default)) [
            | inl k ↦ k
            | inr (v, k) ↦
                let q = (rw (e, is_default-same default_language c same, k, round) at h) in cc
          ]),
        )
      ]

      back : (c : Text) → OffersNothing c → round default values default_language c ≡ none
      back c (blank, no_default) =
          rw (IsBlank-nonblank (get values c) blank, round)
            (elim (Bool-cases (is_default default_language c)) [
              | inr e ↦ rw e refl
              | inl e ↦ rw e (
                  rw (IsBlank-nonblank default (no_default (same-is_default default_language c e)))
                    refl)
            ])

  round-Offers :
      (c value : Text)
      → Offers c value
      → round default values default_language c ≡ some (some value, some c)
  unfolding round default_for nonblank
  round-Offers c value (text, inl e) = rw (e, round) (rw (text, nonblank) refl)
  round-Offers c value (text, inr (blank, same, e)) =
      rw (IsBlank-nonblank (get values c) blank, round)
        (rw (is_default-same default_language c same)
          (rw (e, nonblank) (rw (text, nonblank) (ap (λ l. some (some value, l)) same))))

  tried-first :
      (earlier later : List Text) (c : Text)
      → All OffersNothing earlier
      → tried (earlier ++ c ∷ later)
        ≡ (elim (round default values default_language c) [ some s ↦ some s | none ↦ tried later ])
  unfolding try_candidates
  tried-first [] later c h = refl
  tried-first (e ∷ es) later c h =
      rw ((round-none e).1 h.0, try_candidates) (tried-first es later c h.1)

  tried-none : (cs : List Text) → tried cs ≡ none → All OffersNothing cs
  unfolding try_candidates
  tried-none [] h = tt
  tried-none (c ∷ cs) h = elim (Option-cases (round default values default_language c)) [
    | inl e ↦ ((round-none c).0 e, tried-none cs (rw (e, try_candidates) at h))
    | inr (s, e) ↦ let q = (rw (e, try_candidates) at h) in cc
  ]

  none-tried : (cs : List Text) → All OffersNothing cs → tried cs ≡ none
  unfolding try_candidates
  none-tried [] h = refl
  none-tried (c ∷ cs) h = rw ((round-none c).1 h.0, try_candidates) (none-tried cs h.1)

  tried-IsText : (cs : List Text) (s : Selected) → tried cs ≡ some s → IsText s
  unfolding try_candidates
  tried-IsText [] s h = cc
  tried-IsText (c ∷ cs) s h = elim (Option-cases (round default values default_language c)) [
    | inl e ↦ tried-IsText cs s (rw (e, try_candidates) at h)
    | inr (t, e) ↦ round-IsText c s (e ∙ (rw (e, try_candidates) at h))
  ]

  try_values-IsSound : (cs : List Text) → IsSound (try_values default values default_language cs)
  unfolding try_values
  try_values-IsSound [] = refl
  try_values-IsSound (c ∷ cs) = elim (Option-cases (nonblank (get values c))) [
    | inl e ↦ rw (e, try_values) (try_values-IsSound cs)
    | inr (v, e) ↦ rw (e, try_values) (value-IsSound c v e)
  ]

  without_default-some :
      (l : Text)
      → default_language ≡ some l
      → without_default default values default_language
        ≡ try_values default values default_language (lookup_candidates l)
  unfolding without_default
  without_default-some l k =
      rw (k, without_default) (ap (λ d. try_values default values d (lookup_candidates l)) k)

  without_preference-IsSound : IsSound (without_preference default values default_language)
  unfolding without_preference without_default
  without_preference-IsSound = elim (Option-cases (nonblank default)) [
    | inr (v, e) ↦ rw (e, without_preference) (default-IsSound v e)
    | inl e ↦ elim (Option-cases default_language) [
      | inl k ↦ rw (e, k, without_preference, without_default) refl
      | inr (l, k) ↦
          rw (e, without_preference)
            (subst IsSound (sym (without_default-some l k))
              (try_values-IsSound (lookup_candidates l)))
    ]
  ]

  -- A chosen text is not blank. It stands among the values under the language that is returned
  -- with it, or it is the default text and the default language is returned; with no text no
  -- language is returned.
  pub select_text-IsSound :
      (preferences : List Text) → IsSound (select_text default values default_language preferences)
  unfolding select_text
  select_text-IsSound preferences =
      let e = try_preferences-all_candidates preferences in
      elim (Option-cases (tried (all_candidates preferences))) [
        | inl k ↦ rw (e ∙ k, select_text) without_preference-IsSound
        | inr (s, k) ↦
            rw (e ∙ k, select_text)
              (IsText-IsSound s (tried-IsText (all_candidates preferences) s k))
      ]

  -- Let the preferences be languages whose subtags are not empty and have no dash. They decide in
  -- their order, each with the languages that a lookup falls back on: the first of these that
  -- offers a text is chosen, with its language.
  pub select_text-first :
      (preferences : List (List Text)) (earlier later : List Text) (c value : Text)
      → All IsLanguage preferences
      → all_fallbacks preferences ≡ earlier ++ c ∷ later
      → All OffersNothing earlier
      → Offers c value
      → select_text default values default_language (map joined preferences) ≡ (some value, some c)
  unfolding select_text
  select_text-first preferences earlier later c value languages split nothing offer =
      let e =
        try_preferences-all_candidates (map joined preferences)
        ∙ ap tried (all_candidates-joined preferences languages ∙ split)
        ∙ tried-first earlier later c nothing in
      rw (e, select_text) (rw (round-Offers c value offer) refl)

  -- The values have no text that is not blank in the default language or a language behind it.
  abbrev pub IsDefaultLanguageBlank : Type 0
  IsDefaultLanguageBlank =
      (language : Text)
      → default_language ≡ some language
      → All IsBlankAt (lookup_candidates language)

  try_values-none :
      (cs : List Text) → (try_values default values default_language cs).0 ≡ none → All IsBlankAt cs
  unfolding try_values
  try_values-none [] h = tt
  try_values-none (c ∷ cs) h = elim (Option-cases (nonblank (get values c))) [
    | inl e ↦ (nonblank-IsBlank (get values c) e, try_values-none cs (rw (e, try_values) at h))
    | inr (v, e) ↦ let q = (rw (e, try_values) at h) in cc
  ]

  none-try_values :
      (cs : List Text)
      → All IsBlankAt cs
      → try_values default values default_language cs ≡ (none, none)
  unfolding try_values
  none-try_values [] h = refl
  none-try_values (c ∷ cs) h =
      rw (IsBlank-nonblank (get values c) h.0, try_values) (none-try_values cs h.1)

  without_preference-none :
      (without_preference default values default_language).0 ≡ none
      → IsDefaultBlank × IsDefaultLanguageBlank
  unfolding without_preference
  without_preference-none h = elim (Option-cases (nonblank default)) [
    | inr (v, e) ↦ let q = (rw (e, without_preference) at h) in cc
    | inl e ↦ (
      nonblank-IsBlank default e,
      λ l k.
          try_values-none (lookup_candidates l)
            (ap (λ p. p.0) (sym (without_default-some l k)) ∙ (rw (e, without_preference) at h)),
    )
  ]

  none-without_preference :
      IsDefaultBlank
      → IsDefaultLanguageBlank
      → without_preference default values default_language ≡ (none, none)
  unfolding without_preference without_default
  none-without_preference blank behind =
      rw (IsBlank-nonblank default blank, without_preference)
        (elim (Option-cases default_language) [
          | inl k ↦ rw (k, without_default) refl
          | inr (l, k) ↦
              without_default-some l k ∙ none-try_values (lookup_candidates l) (behind l k)
        ])

  none-select_text :
      (preferences : List Text)
      → All OffersNothing (all_candidates preferences)
      → IsDefaultBlank
      → IsDefaultLanguageBlank
      → select_text default values default_language preferences ≡ (none, none)
  unfolding select_text
  none-select_text preferences nothing blank behind =
      rw
        (
          try_preferences-all_candidates preferences
              ∙ none-tried (all_candidates preferences) nothing,
          select_text,
        )
        (none-without_preference blank behind)

  nothing_offered :
      (preferences : List Text)
      → select_text default values default_language preferences ≡ (none, none)
      → All OffersNothing (all_candidates preferences) × IsDefaultBlank × IsDefaultLanguageBlank
  unfolding select_text
  nothing_offered preferences h =
      let e = try_preferences-all_candidates preferences in
      elim (Option-cases (tried (all_candidates preferences))) [
        | inl k ↦
            let (blank, behind) =
              without_preference-none (ap (λ p. p.0) (rw (e ∙ k, select_text) at h)) in
            (tried-none (all_candidates preferences) k, blank, behind)
        | inr (s, k) ↦ absurd (
            subst IsText (rw (e ∙ k, select_text) at h)
              (tried-IsText (all_candidates preferences) s k))
      ]

  -- Let the subtags of the preferences not be empty and have no dash. No text is chosen, nor a
  -- language, exactly if none of the languages that the lookup of the preferences falls back on
  -- offers one, the default text is blank, and so are the values in the default language and the
  -- candidates behind it.
  pub select_text-none :
      (preferences : List (List Text))
      → All IsLanguage preferences
      → (select_text default values default_language (map joined preferences) ≡ (none, none))
        ↔ (All OffersNothing (all_fallbacks preferences) × IsDefaultBlank × IsDefaultLanguageBlank)
  select_text-none preferences languages =
      let same = all_candidates-joined preferences languages in
      (
        λ h.
            let (nothing, blank, behind) = nothing_offered (map joined preferences) h in
            (subst (All OffersNothing) same nothing, blank, behind),
        λ h.
            let (nothing, blank, behind) = h in
            none-select_text (map joined preferences) (subst (All OffersNothing) (sym same) nothing)
              blank behind,
      )
