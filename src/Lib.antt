-- ===== src/Lib.antt =====
-- The order saga of the commerce services: an order is placed with an outbox event, the event is
-- published to RabbitMQ, the inventory service reserves the stock and answers in the same way, and
-- the order service settles the order.
--
-- Prelude, Error, External, Sql, Json hold what the services take from Go and its libraries: errors
-- and `errors.Is`, SQL statements with faults and transactions (gorm), JSON decoding into structs.
-- UUID texts, floats, validation rules and clocks are parameters with their documented behaviour.
--
-- - Order: services/order-service/internal. Order/Domain is domain/order.go, Order/Input is
--   dto/order.go, Order/Schema and Order/Repository are adapter/repository, Order/Service is
--   service/order_service.go, and Order/Consumer the two stock consumers of adapter/messaging.
-- - Inventory: services/inventory-service/internal. Inventory/Schema and Inventory/Repository are
--   adapter/repository/inventory_repository_pg.go, and Inventory/Consumer is
--   adapter/messaging/reserve_stock_requested_consumer.go.
-- - Outbox: adapter/repository/outbox_repository_pg.go, which the writing services share.
-- - Messaging: adapter/messaging (rabbitmq_publisher.go, retry_policy.go, the events of the
--   consumers) and worker/outbox_worker.go; Messaging/Topology is the consumers' Start, what they
--   declare on the broker, and order-service/internal/adapter/messaging/start.go.
-- - Saga: the payloads from one service to the other, and both services with the broker between
--   them (Saga/System): a state of both databases and of the messages at the broker, whose steps
--   are the calls of the services, the ticks of their workers and the deliveries of any stored
--   message, in any order. Saga/Agreement is what holds of it, Saga/Phases the life of one order.
-- - Order/Server: services/order-service/internal/adapter/grpc/order_server.go, and Gateway:
--   api-gateway/internal (dto, adapter/grpc-client, adapter/http/handler): the handlers call the
--   clients, and these the services' servers over a connection that may lose a call or its answer.
-- - Config: the options and their Validate in config/app_options.go, database/*_options.go and
--   adapter/messaging/rabbitmq_options.go of the gateway and the services.
-- - Process: services/order-service/internal/app/module.go (the hooks, and how fx runs them) and
--   internal/health/handler.go.
-- - Catalog/Write: services/catalog-write-service/internal (domain, service, repository), and
--   Catalog/Read: services/catalog-read-service/internal (the handler of ProductCreated, the
--   cache-aside read, the Mongo and Redis repositories); Catalog/Consumer is its consumer.
--   Catalog/Search is the product search: the Elasticsearch repository, its consumer, its handlers
--   and adapter/grpc/catalog_server.go. Catalog/Flow is both services with the broker between them.
-- - Tests: readings of the parameters, and the theorems at concrete data.
--
-- A call is a function from the tables to a result and the tables. Each of its statements takes a
-- fault that the environment chooses: it runs, it is refused, or it runs and its reply is lost. A
-- sequence of writes stands for an interleaving of the services' goroutines at their statements.
-- Contexts and time-outs show as such faults. The retries of a failing message run on fuel, and any
-- fuel above the number of attempts left is enough.
--
-- Not modelled: the tickers of the workers, logging, the gateway's routes, the loading of the
-- configuration, the connections, and the processes of the other services, which start and stop as
-- the order service does. The engine that ranks search results is a parameter. Prices are kept as
-- the floats that were given, whatever the precision of their columns; which floats and texts the
-- order service's columns take, with their CHECKs, is a parameter (Columns of Order/Schema).
pub mod Prelude
pub mod Error
pub mod Sql
pub mod External
pub mod Json
pub mod Outbox
pub mod Messaging
pub mod Order
pub mod Inventory
pub mod Saga
pub mod Catalog
pub mod Gateway
pub mod Config
pub mod Process
pub mod Tests
