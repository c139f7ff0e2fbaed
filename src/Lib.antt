-- ===== src/Lib.antt =====
-- A model of the core of SCRIPTMETAKit, which reads the metadata that script files carry, watches
-- folders of scripts and compares the versions found.
--
-- Prelude holds shared names and lemmas; Chars and Paths model what the source uses of Rust's text
-- and path types. A text is the list of its Unicode scalar values, and a path the list of its
-- components.
--
-- Version models src/core/version.rs: `normalize_version_string`, which finds the first version
-- number in a text, and `compare_versions`. The segment loop takes the number of characters left as
-- fuel, and each round uses up a character at least.
--
-- Operation models src/core/operation.rs: the flag byte of `OperationCancellation`, the scopes and
-- reservations that change it when they are made and dropped, and the listeners of a cancellation.
-- What a thread does is a program of atomic steps. The functions of the source run such a program
-- without another thread in between, and Operation.Listeners interleaves two of them in any order.
-- Operation.Summary has the values that report on an operation.
-- `wait_for_cancellation`, which waits on a clock, and the poisoning of locks are not modelled.
--
-- Watch models src/watcher/policy.rs and src/watcher/plan.rs:
-- `build_watch_plan_with_resolved_targets` chooses the directories to watch for the registered
-- roots (src/catalog/root.rs), their resolved link targets and the sources of those links. The file
-- system's answers are a parameter. The walks up a path take its number of components as fuel,
-- since a path without components has no parent. `route_change_batch` (Watch.Route) tells what a
-- batch of changed paths means for the roots: Inner is the loop over the paths for one root, Batch
-- the loop over the roots, Rename the pairing of removed with added paths. Whether a path is a
-- resolved link, which src/scanner/path_resolution.rs finds out, is an argument there.
-- Watch.Native models the part of src/watcher/native.rs between the platform's notifications and the
-- consumer: which events are kept, what is pending, and the worker thread (Worker) as a function on
-- its state, one step for each event, timeout or call of `try_recv`. Time is an argument of the steps.
--
-- Extensions models the `ExtensionPolicy` of src/scanner/options.rs, which the routing asks.
--
-- Errors has the error values of src/core/error.rs. Localization models src/core/localization.rs:
-- the bounded list of diagnostics, the preferred languages (the crate `language_tags` is a
-- parameter), the choice of a translation, and tags. The chain of broader languages takes the
-- length of the language as fuel, since each is shorter than the one before. Positions in texts
-- count characters where the source counts bytes. Localization.Description reads the translations
-- inside a description, and models `normalized_newlines` of src/core/text.rs, which it starts with;
-- the carriage return flag of the model stands for the source's look at the next character.
--
-- CustomMetadata models src/core/custom_metadata.rs: the keys of custom metadata, their normal
-- form, and a consumer's selection of keys. The issues of a field, which need the parser's search for
-- fields, are in Sections.Issues.
--
-- Parser models src/core/parser.rs: the blocks of a text (Blocks), the fields on a line (Fields), the
-- fields and the description of a script's block (Script), the decoding of a distribution page (Html),
-- the repair of URLs (Urls, with the crate `url` as a parameter), the records of such a page
-- (Distribution), and the functions that compose them (Metadata). A position in a text is the text
-- from there on. The loop that takes quotes off a URL takes the number of characters as fuel.
--
-- Sections models src/core/metadata_sections.rs: Scan and Items are the loop over the lines of a body,
-- which takes descriptions, tags, custom fields and localised fields out of it before Parser.Script
-- reads what is left; Scalars and Project are what a reader or an editor gets of them. A BTreeMap is
-- the list of its entries, not sorted by key.
--
-- Catalog has the purposes of a registered root (src/catalog/root.rs) and the scan modes
-- (src/catalog/snapshot.rs).
--
-- Retry models src/resolver/retry.rs: which errors of a source are tried again, and the numbers in
-- their messages. `parse_retry_after_millis` reads the clock and is not modelled.
--
-- Formats models src/formats/mod.rs with the tables beside it: which format a file has, and
-- (Capability) whether its metadata can be edited. What the operating system tells of a file is a
-- parameter, and so is the lossy decoding of UTF-8. Inspect has the inspection of a file,
-- which composes the two. CompiledOsa models the part of
-- src/formats/compiled_osa.rs that finds metadata in the bytes of a compiled script.
--
-- Encodings models src/core/text.rs: writing a text in an encoding, and (Decode) the choice of an
-- encoding for the bytes of a file and their decoding. Utf16 compares the writing of UTF-16 with the
-- serialisation of RFC 2781. The crate `encoding_rs` and the check for UTF-8
-- of the standard library are parameters; a text is a list of scalar values and a file a list of bytes.
--
-- Not modelled: the scanner, the resolver of remote metadata, the engine, the notifications of the
-- platforms, the tools that decompile scripts, the editing of scripts and the storage.
pub mod Prelude
pub mod Chars
pub mod Version
pub mod Operation
pub mod Paths
pub mod Watch
pub mod Errors
pub mod Localization
pub mod CustomMetadata
pub mod Extensions
pub mod Retry
pub mod Catalog
pub mod Parser
pub mod Sections
pub mod Formats
pub mod Encodings
