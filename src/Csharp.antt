-- ===== src/Csharp.antt =====
-- Texts of crates/lib/docx-core/src/parsers/csharp_xml.rs: documentation ids and white space.
pub mod DocId
pub mod Whitespace
