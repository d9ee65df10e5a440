-- ===== src/Control.antt =====
-- The pure parts of the control plane, crates/lib/docx-core/src/control.
pub mod Adjacency
pub mod Projects
pub mod Search
