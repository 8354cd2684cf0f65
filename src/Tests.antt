-- ===== src/Tests.antt =====
-- The theorems at concrete data.
pub mod Data
mod Orders
mod Stock
mod Messages
mod Products
mod SagaRuns
mod Flows
mod Edges
