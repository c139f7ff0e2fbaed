-- ===== src/Watch/Files/Ancestors.antt =====
-- The watched directory is the nearest readable one at or above a path.
use scriptmetakit.Paths.Prefixes.{starts_with_refl, starts_with_trans, starts_with-parent}
use scriptmetakit.Paths.{FilePath, parent, starts_with}
use scriptmetakit.Prelude.{ℕ, zero, suc, ◌≡◌, true, Bool-cases, Option-cases, inl, inr, length}
use scriptmetakit.Watch.Files.{FileSystem, watch_directory_within, native_watch_directory}

module _ (fs : FileSystem) where
  watch_directory-above :
      (fuel : ℕ) (path : FilePath) → starts_with path (watch_directory_within fs fuel path) ≡ true
  unfolding watch_directory_within
  watch_directory-above zero path = starts_with_refl path
  watch_directory-above (suc fuel) path = elim (Bool-cases (fs.read_dir_ok path)) [
    | inl e ↦ rw e (starts_with_refl path)
    | inr e ↦ elim (Option-cases (parent path)) [
      | inl k ↦ rw (e, k) (starts_with_refl path)
      | inr (up, k) ↦
          rw (e, k)
            (starts_with_trans path up _ (starts_with-parent path k)
              (watch_directory-above fuel up))
    ]
  ]

  pub native_watch_directory-above :
      (path : FilePath) → starts_with path (native_watch_directory fs path) ≡ true
  unfolding native_watch_directory
  native_watch_directory-above path = watch_directory-above (length path) path
