-- ===== src/Ingest.antt =====
-- crates/lib/docx-core/src/control/ingest.rs: what an ingest stores besides the symbols and blocks.
pub mod Payload
pub mod Dedupe
pub mod Parsed
pub mod Pipeline
pub mod Edges
pub mod SymbolEdges
pub mod BlockEdges
