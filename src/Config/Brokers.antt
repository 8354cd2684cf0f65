-- ===== src/Config/Brokers.antt =====
-- The options of RabbitMQ: internal/adapter/messaging/rabbitmq_options.go of each service.
use go_commerce_microservice.Prelude.{Option, String, List, [], ◌∷◌}
use go_commerce_microservice.Prelude.Int.{ℤ}
use go_commerce_microservice.Error.{Error}
use go_commerce_microservice.Config.{require_all, positive_all, ◌or_else◌}

pub record OrderRabbitmqOptions : Type 0 where
  pub url : String
  pub publisher_exchange : String
  pub consumer_exchange : String
  pub stock_reserved_queue : String
  pub stock_not_reserved_queue : String
  pub outbox_interval_seconds : ℤ
  pub connection_timeout : ℤ
  pub publish_timeout : ℤ
  pub outbox_processing_timeout : ℤ
  pub consumer_processing_timeout : ℤ
  pub consumer_retry_delay : ℤ
  pub consumer_max_attempts : ℤ

abbrev pub order_rabbitmq_required : OrderRabbitmqOptions → List (String × String)
order_rabbitmq_required o =
    ("url", o.url)
    ∷ ("publisherExchange", o.publisher_exchange)
    ∷ ("consumerExchange", o.consumer_exchange)
    ∷ ("stockReservedQueue", o.stock_reserved_queue)
    ∷ ("stockNotReservedQueue", o.stock_not_reserved_queue)
    ∷ []

abbrev pub order_rabbitmq_positive : OrderRabbitmqOptions → List (String × ℤ)
order_rabbitmq_positive o =
    ("outboxIntervalSeconds", o.outbox_interval_seconds)
    ∷ ("publishTimeout", o.publish_timeout)
    ∷ ("connectionTimeout", o.connection_timeout)
    ∷ ("outboxProcessingTimeout", o.outbox_processing_timeout)
    ∷ ("consumerProcessingTimeout", o.consumer_processing_timeout)
    ∷ ("consumerRetryDelay", o.consumer_retry_delay)
    ∷ ("consumerMaxAttempts", o.consumer_max_attempts)
    ∷ []

unfoldable pub validate_order_rabbitmq_options : OrderRabbitmqOptions → Option Error
validate_order_rabbitmq_options o =
    require_all "rabbitMQOptions" (order_rabbitmq_required o)
    or_else positive_all "rabbitMQOptions" (order_rabbitmq_positive o)

pub record InventoryRabbitmqOptions : Type 0 where
  pub url : String
  pub consumer_exchange : String
  pub publisher_exchange : String
  pub reserve_stock_queue : String
  pub outbox_interval_seconds : ℤ
  pub connection_timeout : ℤ
  pub publish_timeout : ℤ
  pub outbox_processing_timeout : ℤ
  pub consumer_processing_timeout : ℤ

unfoldable pub validate_inventory_rabbitmq_options : InventoryRabbitmqOptions → Option Error
validate_inventory_rabbitmq_options o =
    require_all "rabbitMQOptions" (
      ("url", o.url)
      ∷ ("consumerExchange", o.consumer_exchange)
      ∷ ("publisherExchange", o.publisher_exchange)
      ∷ ("reserveStockQueue", o.reserve_stock_queue)
      ∷ [])
    or_else positive_all "rabbitMQOptions" (
        ("outboxIntervalSeconds", o.outbox_interval_seconds)
        ∷ ("connectionTimeout", o.connection_timeout)
        ∷ ("publishTimeout", o.publish_timeout)
        ∷ ("outboxProcessingTimeout", o.outbox_processing_timeout)
        ∷ ("consumerProcessingTimeout", o.consumer_processing_timeout)
        ∷ [])

pub record CatalogWriteRabbitmqOptions : Type 0 where
  pub url : String
  pub exchange : String
  pub outbox_interval_seconds : ℤ
  pub connection_timeout : ℤ
  pub publish_timeout : ℤ
  pub outbox_processing_timeout : ℤ

unfoldable pub validate_catalog_write_rabbitmq_options : CatalogWriteRabbitmqOptions → Option Error
validate_catalog_write_rabbitmq_options o =
    require_all "rabbitMQOptions" (("url", o.url) ∷ ("exchange", o.exchange) ∷ [])
    or_else positive_all "rabbitMQOptions" (
        ("outboxIntervalSeconds", o.outbox_interval_seconds)
        ∷ ("connectionTimeout", o.connection_timeout)
        ∷ ("publishTimeout", o.publish_timeout)
        ∷ ("outboxProcessingTimeout", o.outbox_processing_timeout)
        ∷ [])

pub record CatalogReadRabbitmqOptions : Type 0 where
  pub url : String
  pub exchange : String
  pub product_created_queue : String
  pub product_search_queue : String
  pub connection_timeout : ℤ
  pub consumer_processing_timeout : ℤ

unfoldable pub validate_catalog_read_rabbitmq_options : CatalogReadRabbitmqOptions → Option Error
validate_catalog_read_rabbitmq_options o =
    require_all "rabbitMQOptions" (
      ("url", o.url)
      ∷ ("exchange", o.exchange)
      ∷ ("productCreatedQueue", o.product_created_queue)
      ∷ ("productSearchQueue", o.product_search_queue)
      ∷ [])
    or_else positive_all "rabbitMQOptions" (
        ("connectionTimeout", o.connection_timeout)
        ∷ ("consumerProcessingTimeout", o.consumer_processing_timeout)
        ∷ [])
