-- ===== src/Index.antt =====
-- ikuzo/storage/x/memory: the in-memory full-text index and the queries over it.
pub mod TextIndex
pub mod Match
pub mod Search
mod Tests
