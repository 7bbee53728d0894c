-- ===== src/Answer/Cache.antt =====
-- The answer cache of services/answer-service/internal/application/cache.go.
pub mod Query
pub mod Tokens
pub mod Fingerprint
pub mod Store
pub mod Operations
pub mod Diagnostics
pub mod Entries
pub mod Likeness
pub mod Invariant
pub mod History
pub mod Hits
pub mod Owners
pub mod Repeats
pub mod Recall
mod Tests
