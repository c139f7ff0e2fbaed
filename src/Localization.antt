-- ===== src/Localization.antt =====
-- src/core/localization.rs: preferred languages, the texts that they select, and tags.
pub mod Diagnostics
pub mod Preferences
pub mod Select
pub mod Tags
pub mod Description
