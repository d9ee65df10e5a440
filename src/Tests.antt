-- ===== src/Tests.antt =====
-- The theorems at concrete inputs, and runs of the model.
mod Registry
mod Fixtures
mod Ingest
mod Store
mod Control
mod Api
mod Config
mod Csharp
mod Rustdoc
mod Pipeline
