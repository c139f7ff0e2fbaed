-- ===== src/Watch.antt =====
-- src/watcher/plan.rs and policy.rs: which directories are watched, and what a change affects.
pub mod Types
pub mod Files
pub mod Plan
pub mod Route
pub mod Native
