-- ===== src/Collections.antt =====
-- `HashSet` and `HashMap` of the Rust standard library, as lists without order guarantees, and the
-- loop that keeps the first element of each key.
pub mod HashSet
pub mod HashMap
pub mod KeepFirst
pub mod Sort
