-- ===== src/Ingestion.antt =====
-- services/ingestion-service/internal: the processing job and its attempts, the exclusion policy, the
-- layout worker and what the processor makes of its messages, and the chunker and its pages.
pub mod JobStates
pub mod Job
pub mod Selection
pub mod Chunk
pub mod Chunker
pub mod Completion
pub mod Layout
pub mod ContentSelection
pub mod Stream
pub mod Attempts
