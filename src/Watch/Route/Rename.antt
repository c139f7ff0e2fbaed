-- ===== src/Watch/Route/Rename.antt =====
-- `rename_candidates_from_events` of src/watcher/plan.rs.
pub mod Pairs
use scriptmetakit.Chars.{Text, text_eq, text_eq_iff, text_eq_refl}
use scriptmetakit.Extensions.{extension}
use scriptmetakit.Paths.{FilePath, parent, path_eq, path_eq_sound, path_eq_refl}
use scriptmetakit.Prelude.{
  Bool, true, false, ◌&&◌, ◌||◌, List, [], ◌∷◌, ◌++◌, filter, Option, none, some, if◌then◌else◌,
  ◌≡◌, ◌↔◌, refl, sym, ap, ◌∙◌, arith, Bool-cases, inl, inr, ◌⊎◌, Elem, Elem-append,
  Elem-append_left, Elem-append_right, subst, some_inj, and_true, or_true,
}
use scriptmetakit.Watch.Types.{
  WatchPathEvent, WatchPathEventKind, removed, added, modified, directory_changed, root_changed,
  overflow, WatchRenameCandidate, possible,
}

abbrev pub is_removed : WatchPathEvent → Bool
is_removed event = elim event.kind [ removed ↦ true | _ ↦ false ]

abbrev pub is_added : WatchPathEvent → Bool
is_added event = elim event.kind [ added ↦ true | _ ↦ false ]

-- `==` on the parents and on the extensions.
same_parent : Option FilePath → Option FilePath → Bool
same_parent none none = true
same_parent (some p) (some q) = path_eq p q
same_parent none (some q) = false
same_parent (some p) none = false

same_extension : Option Text → Option Text → Bool
same_extension none none = true
same_extension (some e) (some f) = text_eq e f
same_extension none (some f) = false
same_extension (some e) none = false

pub paths_have_rename_affinity : FilePath → FilePath → Bool
paths_have_rename_affinity old_path new_path =
    same_parent (parent old_path) (parent new_path)
    || same_extension (extension old_path) (extension new_path)

pub is_rename : WatchPathEvent → WatchPathEvent → Bool
is_rename old new = text_eq old.root_id new.root_id && paths_have_rename_affinity old.path new.path

abbrev pub rename_of : WatchPathEvent → WatchPathEvent → WatchRenameCandidate
rename_of old new = record {
  root_id = old.root_id;
  old_path = old.path;
  new_path = new.path;
  confidence = possible;
}

-- The two loops over the removed and the added events.
renames_of : WatchPathEvent → List WatchPathEvent → List WatchRenameCandidate
renames_of old [] = []
renames_of old (new ∷ events) =
    (if is_rename old new then rename_of old new ∷ [] else []) ++ renames_of old events

renames : List WatchPathEvent → List WatchPathEvent → List WatchRenameCandidate
renames [] new_events = []
renames (old ∷ events) new_events = renames_of old new_events ++ renames events new_events

pub rename_candidates_from_events : List WatchPathEvent → List WatchRenameCandidate
rename_candidates_from_events events = renames (filter is_removed events) (filter is_added events)
