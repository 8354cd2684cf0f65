-- ===== src/Inventory.antt =====
-- The inventory service: services/inventory-service/internal.
pub mod Schema
pub mod Repository
pub mod Consumer
pub mod Stock
pub mod Locked
pub mod Reserved
pub mod Served
pub mod Answer
pub mod Consistency
pub mod Redelivery
pub mod Repeats
