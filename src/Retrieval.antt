-- ===== src/Retrieval.antt =====
-- The parts of services/retrieval-service that decide when a book is searchable.
pub mod IndexJob
