-- ===== src/Watch/Route/Rename/Pairs.antt =====
-- Which pairs of events `rename_candidates_from_events` of src/watcher/plan.rs returns.
use scriptmetakit.Chars.{Text, text_eq_iff, text_eq_refl}
use scriptmetakit.Extensions.{extension}
use scriptmetakit.Paths.{FilePath, parent, path_eq_sound, path_eq_refl}
use scriptmetakit.Prelude.{
  Bool, true, false, List, [], ◌∷◌, filter, Option, none, some, if◌then◌else◌, ◌≡◌, ◌↔◌, refl, sym,
  ap, ◌∙◌, arith, Bool-cases, inl, inr, ◌⊎◌, Elem, Elem-append, Elem-append_left, Elem-append_right,
  subst, some_inj, and_true, or_true,
}
use scriptmetakit.Watch.Types.{
  WatchPathEvent, WatchPathEventKind, removed, added, modified, directory_changed, root_changed,
  overflow, WatchRenameCandidate,
}
use scriptmetakit.Watch.Route.Rename.{
  is_removed, is_added, same_parent, same_extension, paths_have_rename_affinity, is_rename,
  rename_of, renames_of, renames, rename_candidates_from_events,
}

Elem-filter_sound :
    (p : WatchPathEvent → Bool) (xs : List WatchPathEvent) (x : WatchPathEvent)
    → Elem x (filter p xs)
    → Elem x xs × (p x ≡ true)
Elem-filter_sound p [] x h = absurd h
Elem-filter_sound p (y ∷ ys) x h = elim (Bool-cases (p y)) [
  | inr e ↦ let (m, q) = Elem-filter_sound p ys x (rw e at h) in (inr m, q)
  | inl e ↦ elim (rw e at h) [
    | inl k ↦ (inl k, sym (ap p k) ∙ e)
    | inr k ↦ let (m, q) = Elem-filter_sound p ys x k in (inr m, q)
  ]
]

Elem-filter_complete :
    (p : WatchPathEvent → Bool) (xs : List WatchPathEvent) (x : WatchPathEvent)
    → Elem x xs
    → p x ≡ true
    → Elem x (filter p xs)
Elem-filter_complete p [] x h k = absurd h
Elem-filter_complete p (y ∷ ys) x (inl e) k = rw (ap p e ∙ k) (inl e)
Elem-filter_complete p (y ∷ ys) x (inr m) k = elim (Bool-cases (p y)) [
  | inl e ↦ rw e (inr (Elem-filter_complete p ys x m k))
  | inr e ↦ rw e (Elem-filter_complete p ys x m k)
]

renames_of_sound :
    (old : WatchPathEvent) (events : List WatchPathEvent) (c : WatchRenameCandidate)
    → Elem c (renames_of old events)
    → (new : WatchPathEvent) × Elem new events
      × (is_rename old new ≡ true)
      × (c ≡ rename_of old new)
unfolding renames_of
renames_of_sound old [] c h = absurd h
renames_of_sound old (new ∷ events) c h = elim (Bool-cases (is_rename old new)) [
  | inl e ↦ elim (rw (e, renames_of) at h) [
    | inl k ↦ (new, inl refl, e, sym k)
    | inr k ↦ let (n, m, r, q) = renames_of_sound old events c k in (n, inr m, r, q)
  ]
  | inr e ↦
      let (n, m, r, q) = renames_of_sound old events c (rw (e, renames_of) at h) in (n, inr m, r, q)
]

renames_of_complete :
    (old new : WatchPathEvent) (events : List WatchPathEvent)
    → Elem new events
    → is_rename old new ≡ true
    → Elem (rename_of old new) (renames_of old events)
unfolding renames_of
renames_of_complete old new [] m h = absurd m
renames_of_complete old new (e ∷ events) (inl k) h = Elem-append_left _ _ (renames_of old events) (
    subst (λ n. Elem (rename_of old new) (if is_rename old n then rename_of old n ∷ [] else []))
      (sym k) (rw h (inl refl)))
renames_of_complete old new (e ∷ events) (inr m) h =
    Elem-append_right _ (if is_rename old e then rename_of old e ∷ [] else []) _
      (renames_of_complete old new events m h)

renames_sound :
    (olds news : List WatchPathEvent) (c : WatchRenameCandidate)
    → Elem c (renames olds news)
    → (old new : WatchPathEvent) × Elem old olds
      × Elem new news
      × (is_rename old new ≡ true)
      × (c ≡ rename_of old new)
unfolding renames
renames_sound [] news c h = absurd h
renames_sound (old ∷ olds) news c h =
    elim (Elem-append c (renames_of old news) (renames olds news) h) [
      | inl k ↦ let (n, m, r, q) = renames_of_sound old news c k in (old, n, inl refl, m, r, q)
      | inr k ↦ let (o, n, i, m, r, q) = renames_sound olds news c k in (o, n, inr i, m, r, q)
    ]

renames_complete :
    (old new : WatchPathEvent) (olds news : List WatchPathEvent)
    → Elem old olds
    → Elem new news
    → is_rename old new ≡ true
    → Elem (rename_of old new) (renames olds news)
unfolding renames
renames_complete old new [] news i m h = absurd i
renames_complete old new (o ∷ olds) news (inl k) m h = Elem-append_left _ _ (renames olds news) (
    subst (λ x. Elem (rename_of old new) (renames_of x news)) (sym k)
      (renames_of_complete old new news m h))
renames_complete old new (o ∷ olds) news (inr i) m h =
    Elem-append_right _ (renames_of o news) _ (renames_complete old new olds news i m h)

same_parent_iff : (p q : Option FilePath) → (same_parent p q ≡ true) ↔ (p ≡ q)
unfolding same_parent
same_parent_iff none none = (λ h. refl, λ h. refl)
same_parent_iff none (some q) = (λ h. cc, λ h. cc)
same_parent_iff (some p) none = (λ h. cc, λ h. cc)
same_parent_iff (some p) (some q) =
    (λ h. ap some (path_eq_sound p q h), λ h. rw (some_inj h) (path_eq_refl q))

same_extension_iff : (e f : Option Text) → (same_extension e f ≡ true) ↔ (e ≡ f)
unfolding same_extension
same_extension_iff none none = (λ h. refl, λ h. refl)
same_extension_iff none (some f) = (λ h. cc, λ h. cc)
same_extension_iff (some e) none = (λ h. cc, λ h. cc)
same_extension_iff (some e) (some f) =
    (λ h. ap some ((text_eq_iff e f).0 h), λ h. rw (some_inj h) (text_eq_refl f))

-- A removed and an added path of one root, in one directory or with one extension.
abbrev pub IsRename : WatchPathEvent → WatchPathEvent → Type 0
IsRename old new =
    (old.kind ≡ removed)
    × (new.kind ≡ added)
    × (old.root_id ≡ new.root_id)
    × ((parent old.path ≡ parent new.path) ⊎ (extension old.path ≡ extension new.path))

kind_removed :
    (k : WatchPathEventKind) → ((elim k [ removed ↦ true | _ ↦ false ]) ≡ true) ↔ (k ≡ removed)
kind_removed added = (λ h. cc, λ h. cc)
kind_removed modified = (λ h. cc, λ h. cc)
kind_removed removed = (λ h. refl, λ h. refl)
kind_removed directory_changed = (λ h. cc, λ h. cc)
kind_removed root_changed = (λ h. cc, λ h. cc)
kind_removed overflow = (λ h. cc, λ h. cc)

kind_added : (k : WatchPathEventKind) → ((elim k [ added ↦ true | _ ↦ false ]) ≡ true) ↔ (k ≡ added)
kind_added added = (λ h. refl, λ h. refl)
kind_added modified = (λ h. cc, λ h. cc)
kind_added removed = (λ h. cc, λ h. cc)
kind_added directory_changed = (λ h. cc, λ h. cc)
kind_added root_changed = (λ h. cc, λ h. cc)
kind_added overflow = (λ h. cc, λ h. cc)

is_rename_iff :
    (old new : WatchPathEvent)
    → (is_rename old new ≡ true) ↔ (
        (old.root_id ≡ new.root_id)
        × ((parent old.path ≡ parent new.path) ⊎ (extension old.path ≡ extension new.path)))
unfolding is_rename paths_have_rename_affinity
is_rename_iff old new = (
  λ h.
      let (i, a) = and_true _ _ h in
      (
        (text_eq_iff _ _).0 i,
        elim (or_true _ _ a) [
          | inl k ↦ inl ((same_parent_iff _ _).0 k)
          | inr k ↦ inr ((same_extension_iff _ _).0 k)
        ],
      ),
  λ (i, a). elim a [
    | inl k ↦ rw ((text_eq_iff _ _).1 i) (rw ((same_parent_iff _ _).1 k) refl)
    | inr k ↦ let e = (same_extension_iff _ _).1 k in rw ((text_eq_iff _ _).1 i) (ground arith)
  ],
)

-- The candidates are exactly the pairs of a removed and an added event of one root whose paths
-- have the same parent or the same extension.
pub rename_candidates_from_events_iff :
    (events : List WatchPathEvent) (c : WatchRenameCandidate)
    → Elem c (rename_candidates_from_events events) ↔ (
        (old new : WatchPathEvent) × Elem old events
        × Elem new events
        × IsRename old new
        × (c ≡ rename_of old new))
unfolding rename_candidates_from_events
rename_candidates_from_events_iff events c = (
  λ h.
      let (o, n, i, m, r, q) = renames_sound _ _ c h in
      let (i', rem) = Elem-filter_sound is_removed events o i in
      let (m', add) = Elem-filter_sound is_added events n m in
      let (same, aff) = (is_rename_iff o n).0 r in
      (o, n, i', m', ((kind_removed o.kind).0 rem, (kind_added n.kind).0 add, same, aff), q),
  λ (o, n, i, m, (rem, add, same, aff), q).
      subst (λ x. Elem x (rename_candidates_from_events events)) (sym q)
        (renames_complete o n _ _
          (Elem-filter_complete is_removed events o i ((kind_removed o.kind).1 rem))
          (Elem-filter_complete is_added events n m ((kind_added n.kind).1 add))
          ((is_rename_iff o n).1 (same, aff))),
)
