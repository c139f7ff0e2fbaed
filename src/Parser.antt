-- ===== src/Parser.antt =====
-- src/core/parser.rs: the metadata block of a script, and that of a distribution page.
pub mod Blocks
pub mod Fields
pub mod Script
pub mod Html
pub mod Urls
pub mod Distribution
pub mod Metadata
