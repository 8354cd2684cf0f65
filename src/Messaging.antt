-- ===== src/Messaging.antt =====
-- RabbitMQ: deliveries, the publishers, the outbox workers, the retry policy and the stock events.
pub mod Delivery
pub mod Events
pub mod Publisher
pub mod Worker
pub mod Topology
pub mod Retry
