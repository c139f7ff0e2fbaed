-- ===== src/CustomMetadata.antt =====
-- src/core/custom_metadata.rs: the keys of custom metadata, and the consumer's selection of them.
pub mod Keys
pub mod Selection
