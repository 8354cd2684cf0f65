-- ===== src/Catalog.antt =====
-- The catalog: products are written by one service and projected by another.
pub mod Write
pub mod Read
pub mod Consumer
pub mod Search
pub mod Flow
