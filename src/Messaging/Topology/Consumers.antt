-- ===== src/Messaging/Topology/Consumers.antt =====
-- The consumers' Start in services/{order,inventory,catalog-read}-service/internal/adapter/messaging,
-- and the group that order-service/internal/adapter/messaging/start.go runs.
use go_commerce_microservice.Prelude.{ℕ, Option, none, some, String, List, [], ◌∷◌, ◌++◌}
use go_commerce_microservice.Prelude.Int.{ℤ}
use go_commerce_microservice.Error.{Error}
use go_commerce_microservice.External.{UuidText, FloatOps}
use go_commerce_microservice.Sql.{Fault}
use go_commerce_microservice.Messaging.Retry.{RetryPolicy, new_retry_policy}
use go_commerce_microservice.Messaging.Topology.{
  Command, Topology, plain, declare, Signal, Loop, start,
}
use go_commerce_microservice.Order.Schema.{OrderDb}
use go_commerce_microservice.Order.Consumer as OrderConsumer
use go_commerce_microservice.Order.Consumer.{handle_stock_reserved, handle_stock_not_reserved}
use go_commerce_microservice.Inventory.Schema.{InventoryDb}
use go_commerce_microservice.Inventory.Consumer as StockConsumer
use go_commerce_microservice.Catalog.Read.{Store}
use go_commerce_microservice.Catalog.Consumer as CatalogConsumer
use go_commerce_microservice.Catalog.Search.{Cluster}
use go_commerce_microservice.Catalog.Search.Consumer as SearchConsumer

abbrev pub closed_channel : String
closed_channel = "RabbitMQ deliveries channel closed"

-- The declarations of a consumer that has no retry policy.
unfoldable pub subscribe : String → String → String → List (Option String × Command)
subscribe exchange queue key =
    plain (Command.exchange_declare exchange "topic")
    ∷ plain (Command.queue_declare queue none)
    ∷ plain (Command.queue_bind queue key exchange)
    ∷ plain (Command.consume queue)
    ∷ []

-- The retry policy's declarations stand between the queue and its binding.
unfoldable pub subscribe_with_retry :
    String → String → String → RetryPolicy → ℤ → List (Option String × Command)
subscribe_with_retry exchange queue key p retry_delay =
    (plain (Command.exchange_declare exchange "topic")
      ∷ plain (Command.queue_declare queue none)
      ∷ [])
    ++ (declare p retry_delay
        ++ plain (Command.queue_bind queue key exchange) ∷ plain (Command.consume queue) ∷ [])

-- What a consumer of the order service is made with.
pub record Settings : Type 0 where
  pub exchange : String
  pub queue : String
  pub retry_delay : ℤ
  pub max_attempts : ℤ

module _ (u : UuidText) (faults : ℕ → Fault) (s : Settings) where
  unfoldable pub stock_reserved_policy : RetryPolicy
  stock_reserved_policy = new_retry_policy s.exchange "stock.reserved" s.queue s.max_attempts

  unfoldable pub start_stock_reserved :
      List (Signal OrderConsumer.Turn) → Topology × OrderDb → Loop × Topology × OrderDb
  start_stock_reserved =
      start faults
        (subscribe_with_retry s.exchange s.queue "stock.reserved" stock_reserved_policy
          s.retry_delay)
        (λ t d db. (handle_stock_reserved u stock_reserved_policy t d db).db) closed_channel

  unfoldable pub stock_not_reserved_policy : RetryPolicy
  stock_not_reserved_policy = new_retry_policy s.exchange "stock.notreserved" s.queue s.max_attempts

  unfoldable pub start_stock_not_reserved :
      List (Signal OrderConsumer.Turn) → Topology × OrderDb → Loop × Topology × OrderDb
  start_stock_not_reserved =
      start faults
        (subscribe_with_retry s.exchange s.queue "stock.notreserved" stock_not_reserved_policy
          s.retry_delay)
        (λ t d db. (handle_stock_not_reserved u stock_not_reserved_policy t d db).db) closed_channel

module _ (faults : ℕ → Fault) (exchange queue : String) where
  unfoldable pub start_reserve_stock_requested :
      UuidText
      → List (Signal StockConsumer.Turn)
      → Topology × InventoryDb
      → Loop × Topology × InventoryDb
  start_reserve_stock_requested u =
      start faults (subscribe exchange queue "order.created")
        (λ t d db. (StockConsumer.handle_message u t d db).1) closed_channel

  unfoldable pub start_product_created :
      FloatOps → List (Signal CatalogConsumer.Turn) → Topology × Store → Loop × Topology × Store
  start_product_created fl =
      start faults (subscribe exchange queue "product.created")
        (λ t d s. (CatalogConsumer.consume_product_created fl t d s).1) closed_channel

  unfoldable pub start_product_search_index :
      FloatOps → List (Signal SearchConsumer.Turn) → Topology × Cluster → Loop × Topology × Cluster
  start_product_search_index fl =
      start faults (subscribe exchange queue "product.created")
        (λ t d c. (SearchConsumer.consume_search_index fl t d c).1)
        "RabbitMQ search-index deliveries channel closed"

-- The first thing that `Start` of start.go sees: a consumer's return, or the end of the context.
pub data GroupSignal : Type 0 where
  stock_reserved_returned stock_not_reserved_returned : Option Error → GroupSignal
  context_done : GroupSignal

-- A consumer that returns no error says nothing to the group.
unfoldable pub start_group : List GroupSignal → Loop
start_group [] = Loop.running
start_group (GroupSignal.stock_reserved_returned none ∷ signals) = start_group signals
start_group (GroupSignal.stock_reserved_returned (some e) ∷ signals) =
    Loop.returned (some (Error.wrapped "stock reserved consumer" e))
start_group (GroupSignal.stock_not_reserved_returned none ∷ signals) = start_group signals
start_group (GroupSignal.stock_not_reserved_returned (some e) ∷ signals) =
    Loop.returned (some (Error.wrapped "stock not reserved consumer" e))
start_group (GroupSignal.context_done ∷ signals) = Loop.returned none
