-- ===== src/Store.antt =====
-- The pure parts of crates/lib/docx-core/src/store/surreal.rs.
pub mod Schema
pub mod IngestIds
pub mod Rows
pub mod Glob
pub mod Session
