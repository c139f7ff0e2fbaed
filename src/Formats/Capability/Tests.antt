-- ===== src/Formats/Capability/Tests.antt =====
-- A script that can be written to.
use scriptmetakit.Formats.Capability.Laws.{
  IsWritable, from_cached-from_metadata, can_edit_scriptmeta_iff,
}
use scriptmetakit.Formats.Capability.{
  Files, scriptmeta_edit_capability, scriptmeta_edit_capability_from_metadata,
  scriptmeta_edit_capability_from_cached_metadata,
}
use scriptmetakit.Formats.Tests.{as_is, script, contents}
use scriptmetakit.Prelude.{true, false, some, ◌≡◌, ◌↔◌}

abbrev writable : Files
writable = record {
  metadata = λ path. some (record { has_lock_flags = false; is_readonly = false; is_file = true });
  parent_directory_is_read_only = λ path. false;
}

from_cached-from_metadata_example :
    scriptmeta_edit_capability_from_cached_metadata as_is writable script
      (scriptmeta_edit_capability_from_metadata as_is writable script
        (some contents)
        true
        false).scriptmeta_edit_state
      true
      false
    ≡ scriptmeta_edit_capability_from_metadata as_is writable script (some contents) true false
from_cached-from_metadata_example =
    from_cached-from_metadata as_is writable script (some contents) true false

can_edit_scriptmeta_iff_example :
    ((scriptmeta_edit_capability as_is writable script
        (some contents)
        true
        true
        false).can_edit_scriptmeta
      ≡ true)
    ↔ ((true ≡ true) × (true ≡ true) × IsWritable as_is writable script (some contents))
can_edit_scriptmeta_iff_example =
    can_edit_scriptmeta_iff as_is writable script (some contents) true true false
