-- ===== src/Rustdoc.antt =====
-- The rustdoc JSON parser, crates/lib/docx-core/src/parsers/rustdoc_json.rs.
pub mod Keys
pub mod Types
pub mod Entries
pub mod Markdown
pub mod Crate
pub mod Items
pub mod State
pub mod Visit
