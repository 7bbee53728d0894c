-- ===== src/Catalog.antt =====
-- services/catalog-service: the book aggregate and its lifecycle.
pub mod Status
pub mod Book
pub mod Commands
