-- ===== src/Models.antt =====
-- The records of crates/lib/docx-store/src/models.rs, field by field.
mod Json
mod Symbols
mod Docs
mod Records
pub use Json.*
pub use Symbols.*
pub use Docs.*
pub use Records.*
unfoldable pub use Json.{depth}
