-- ===== src/Saga/System.antt =====
-- The order service, the inventory service and the broker between them, as one system whose steps
-- are the calls of the two services.
use go_commerce_microservice.Prelude.{
  ℕ, zero, suc, Option, none, some, String, List, [], ◌∷◌, if◌then◌else◌,
}
use text.Mathlib.Text.{◌==◌ as str_eq}
use go_commerce_microservice.External.{UuidText, FloatOps}
use go_commerce_microservice.Sql.{Fault, Result}
use go_commerce_microservice.Outbox.{Outbox}
use go_commerce_microservice.Messaging.Delivery.{BrokerReply, Table, Properties, Delivery}
use go_commerce_microservice.Messaging.Publisher.{
  Sent, Link, order_event_routing_key, inventory_event_routing_key,
}
use go_commerce_microservice.Messaging.Retry.{RetryPolicy}
use go_commerce_microservice.Messaging.Worker.{process}
use go_commerce_microservice.Messaging.Worker.Stored.{rabbit_turn}
use go_commerce_microservice.Order.Input.{Rules, CreateOrderInput}
use go_commerce_microservice.Order.Schema.{OrderDb}
use go_commerce_microservice.Order.Repository as OrderRepo
use go_commerce_microservice.Order.Service.{Draws, create_order}
use go_commerce_microservice.Order.Consumer as OrderConsumer
use go_commerce_microservice.Order.Consumer.{handle_stock_reserved, handle_stock_not_reserved}
use go_commerce_microservice.Inventory.Schema.{InventoryDb}
use go_commerce_microservice.Inventory.Consumer as StockConsumer
use go_commerce_microservice.Inventory.Consumer.{handle_message}

-- The two databases, and what each service's publisher has stored at the broker. A stored message
-- stays: it is delivered in any order, again and again.
pub record System : Type 0 where
  pub orders : OrderDb
  pub order_link : Link
  pub stock : InventoryDb
  pub stock_link : Link

-- What the environment does to one tick of a worker.
pub record Tick : Type 0 where
  pub find_fault : Fault
  pub batch_size : ℕ
  pub replies : ℕ → BrokerReply
  pub marks : ℕ → Fault
  pub bumps : ℕ → Fault
  pub clock : ℕ → ℕ

-- One call of a service. A delivery names a stored message by its position, and brings headers and
-- properties of its own, as a retried copy does.
pub data Step : Type 0 where
  place : OrderRepo.Faults → Draws → CreateOrderInput → Step
  publish_orders publish_stock : Tick → Step
  reserve : StockConsumer.Turn → ℕ → Table → Properties → Step
  confirm reject : RetryPolicy → OrderConsumer.Turn → ℕ → Table → Properties → Step

abbrev pub nth_sent : ℕ → List Sent → Option Sent
nth_sent n [] = none
nth_sent zero (m ∷ ms) = some m
nth_sent (suc n) (m ∷ ms) = nth_sent n ms

-- A queue takes the messages of the key that it is bound to.
abbrev pub bound : String → Option Sent → Option Sent
bound key none = none
bound key (some m) = if str_eq m.routing_key key then some m else none

abbrev pub delivery_of : Sent → Table → Properties → Delivery
delivery_of m headers properties = record {
  headers = headers;
  properties = properties;
  body = m.payload;
}

-- One tick of a service's worker: its process, with its publisher.
unfoldable pub publish_tick :
    (String → Result String) → String → Tick → Outbox × Link → Outbox × Link
publish_tick event_routing_key exchange t =
    process t.find_fault t.batch_size (λ i.
      rabbit_turn event_routing_key exchange (t.replies i) (t.marks i) (t.bumps i) (t.clock i))

-- `process` of the inventory service's worker, with its publisher.
abbrev pub stock_worker_process : String → Tick → Outbox × Link → Outbox × Link
stock_worker_process = publish_tick inventory_event_routing_key

module _ (r : Rules) (u : UuidText) (fl : FloatOps) (exchange : String) where
  unfoldable pub deliver_request : StockConsumer.Turn → Option Delivery → InventoryDb → InventoryDb
  deliver_request t none db = db
  deliver_request t (some d) db = (handle_message u t d db).1

  unfoldable pub deliver_reserved :
      RetryPolicy → OrderConsumer.Turn → Option Delivery → OrderDb → OrderDb
  deliver_reserved p t none db = db
  deliver_reserved p t (some d) db = (handle_stock_reserved u p t d db).db

  unfoldable pub deliver_not_reserved :
      RetryPolicy → OrderConsumer.Turn → Option Delivery → OrderDb → OrderDb
  deliver_not_reserved p t none db = db
  deliver_not_reserved p t (some d) db = (handle_stock_not_reserved u p t d db).db

  abbrev pub picked : String → ℕ → Table → Properties → Link → Option Delivery
  picked key n headers properties l = elim (bound key (nth_sent n l.stored)) [
    | none ↦ none
    | some m ↦ some (delivery_of m headers properties)
  ]

  unfoldable pub step : Step → System → System
  unfolding publish_tick deliver_request deliver_reserved deliver_not_reserved
  step (Step.place f d input) s = record s { orders = (create_order r u fl f d input s.orders).1 }
  step (Step.publish_orders t) s =
      let (outbox, l) =
        publish_tick order_event_routing_key exchange t (s.orders.outbox, s.order_link) in
      record s { orders = record s.orders { outbox = outbox }; order_link = l }
  step (Step.publish_stock t) s =
      let (outbox, l) = stock_worker_process exchange t (s.stock.outbox, s.stock_link) in
      record s { stock = record s.stock { outbox = outbox }; stock_link = l }
  step (Step.reserve t n headers properties) s = record s {
    stock = deliver_request t (picked "order.created" n headers properties s.order_link) s.stock;
  }
  step (Step.confirm p t n headers properties) s = record s {
    orders =
        deliver_reserved p t (picked "stock.reserved" n headers properties s.stock_link) s.orders;
  }
  step (Step.reject p t n headers properties) s = record s {
    orders =
        deliver_not_reserved p t (picked "stock.notreserved" n headers properties s.stock_link)
          s.orders;
  }

  -- Any interleaving of the calls.
  unfoldable pub run : List Step → System → System
  unfolding step
  run [] s = s
  run (a ∷ as_) s = run as_ (step a s)
