-- ===== src/Order.antt =====
-- The order service: services/order-service/internal.
pub mod Domain
pub mod Input
pub mod Schema
pub mod Repository
pub mod Service
pub mod Consumer
pub mod Server
pub mod Status
pub mod Creation
pub mod Handling
pub mod Redelivered
pub mod Retried
