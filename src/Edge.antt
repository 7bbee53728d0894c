-- ===== src/Edge.antt =====
-- The parts of services/edge-api that admit or refuse a request.
pub mod RateLimit
