-- ===== src/Watch/Files.antt =====
-- The paths that src/watcher/plan.rs asks the file system about. `FileSystem` is the operating
-- system's answers at the time of the call: `Path::canonicalize`, `fs::read_dir(path).is_ok()`,
-- `Path::try_exists` with its error read as absence, and `metadata().is_dir()`.
pub mod Ancestors
use scriptmetakit.Paths.{
  FilePath, Component, root_dir, cur_dir, parent_dir, normal, parent, file_name, join, pop, push,
  path_eq, starts_with, split_last,
}
use scriptmetakit.Prelude.{
  ℕ, zero, suc, Bool, true, false, ◌||◌, List, [], ◌∷◌, Option, none, some, if◌then◌else◌, length,
}

pub record FileSystem : Type 0 where
  pub canonicalize : FilePath → Option FilePath
  pub read_dir_ok : FilePath → Bool
  pub exists : FilePath → Bool
  pub is_dir : FilePath → Bool

unfoldable pub path_is_same_or_child : FilePath → FilePath → Bool
path_is_same_or_child path ancestor = path_eq path ancestor || starts_with path ancestor

unfoldable pub path_affects_root : FilePath → FilePath → Bool
path_affects_root changed_path root_path =
    path_is_same_or_child changed_path root_path || path_is_same_or_child root_path changed_path

-- `lexical_normalize`, one component at a time.
normalize_component : FilePath → Component → FilePath
normalize_component normalized cur_dir = normalized
normalize_component normalized parent_dir = pop normalized
normalize_component normalized root_dir = push normalized root_dir
normalize_component normalized (normal name) = push normalized (normal name)

normalize_onto : FilePath → List Component → FilePath
normalize_onto normalized [] = normalized
normalize_onto normalized (c ∷ cs) = normalize_onto (normalize_component normalized c) cs

pub lexical_normalize : FilePath → FilePath
lexical_normalize path = normalize_onto [] path

module _ (fs : FileSystem) where
  -- `normalize_path`, which goes up the parents. The fuel is the number of components; a path
  -- with none has no parent, so the last clause does what the source does there.
  normalize_within : ℕ → FilePath → FilePath
  normalize_within zero path = elim (fs.canonicalize path) [
    | some canonical_path ↦ canonical_path
    | none ↦ lexical_normalize path
  ]
  normalize_within (suc fuel) path = elim (fs.canonicalize path) [
    | some canonical_path ↦ canonical_path
    | none ↦ elim (parent path) [
      | none ↦ lexical_normalize path
      | some up ↦ elim (file_name path) [
        | none ↦ lexical_normalize path
        | some name ↦ join (normalize_within fuel up) name
      ]
    ]
  ]

  unfoldable pub normalize_path : FilePath → FilePath
  unfolding normalize_within
  normalize_path path = normalize_within (length path) path

  unfoldable pub normalize_reference_source : FilePath → FilePath
  normalize_reference_source path = elim (parent path) [
    | none ↦ normalize_path path
    | some up ↦ elim (file_name path) [
      | none ↦ normalize_path path
      | some name ↦ join (normalize_path up) name
    ]
  ]

  -- `native_watch_directory`: the nearest readable ancestor. The fuel is as above.
  watch_directory_within : ℕ → FilePath → FilePath
  watch_directory_within zero candidate = candidate
  watch_directory_within (suc fuel) candidate =
      if fs.read_dir_ok candidate
      then candidate
      else elim (parent candidate) [ none ↦ candidate | some up ↦ watch_directory_within fuel up ]

  unfoldable pub native_watch_directory : FilePath → FilePath
  unfolding watch_directory_within
  native_watch_directory path = watch_directory_within (length path) path
