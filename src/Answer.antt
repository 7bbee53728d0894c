-- ===== src/Answer.antt =====
-- The parts of services/answer-service that decide what an answer rests on.
pub mod Evidence
pub mod Output
pub mod Request
pub mod Cache
pub mod Inflight
pub mod Throttle
pub mod Service
