-- ===== src/Namespace.antt =====
-- config/namespace.go, ikuzo/domain/namespace.go: namespaces, their prefixes and bases.
pub mod Uri
pub mod Config
pub mod Entry
pub mod Store
pub mod Service
mod Tests
