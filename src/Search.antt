-- ===== src/Search.antt =====
-- ikuzo/service/x/search: the parts of the full-text search that do not store anything.
pub mod Vector
pub mod Matches
pub mod Phrase
pub mod Query
pub mod Token
pub mod Tokenizer
pub mod Highlight
pub mod Parser
mod Tests
