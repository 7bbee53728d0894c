-- ===== src/Identity.antt =====
-- The parts of services/identity-service that decide who may use the library.
pub mod Account
pub mod Login
