-- ===== src/Catalog.antt =====
-- The choices that a root is registered with, of src/catalog/root.rs, and the scan modes of
-- src/catalog/snapshot.rs.
use scriptmetakit.Prelude.{Bool, true, false, ◌≡◌, refl}

pub data ScanMode : Type 0 where
  file_list_only metadata_only both : ScanMode

pub mode_includes_file_list : ScanMode → Bool
mode_includes_file_list file_list_only = true
mode_includes_file_list metadata_only = false
mode_includes_file_list both = true

pub mode_includes_metadata : ScanMode → Bool
mode_includes_metadata file_list_only = false
mode_includes_metadata metadata_only = true
mode_includes_metadata both = true

pub data RootPurpose : Type 0 where
  file_list metadata_catalog update_check file_list_and_metadata : RootPurpose

pub includes_file_list : RootPurpose → Bool
includes_file_list file_list = true
includes_file_list metadata_catalog = false
includes_file_list update_check = false
includes_file_list file_list_and_metadata = true

pub includes_metadata : RootPurpose → Bool
includes_metadata file_list = false
includes_metadata metadata_catalog = true
includes_metadata update_check = true
includes_metadata file_list_and_metadata = true

pub from_scan_mode : ScanMode → RootPurpose
from_scan_mode file_list_only = file_list
from_scan_mode metadata_only = metadata_catalog
from_scan_mode both = file_list_and_metadata

-- A purpose made of a scan mode includes what the mode includes.
pub from_scan_mode-includes :
    (mode : ScanMode)
    → (includes_file_list (from_scan_mode mode) ≡ mode_includes_file_list mode)
      × (includes_metadata (from_scan_mode mode) ≡ mode_includes_metadata mode)
unfolding includes_file_list includes_metadata from_scan_mode mode_includes_file_list
    mode_includes_metadata
from_scan_mode-includes file_list_only = (refl, refl)
from_scan_mode-includes metadata_only = (refl, refl)
from_scan_mode-includes both = (refl, refl)
