-- ===== src/Saga/Answered.antt =====
-- The deliveries of answers, which are settlements.
use go_commerce_microservice.Prelude.{◌≡◌, refl, sym, ap, ◌∙◌, String, List, inl, inr}
use mathlib.Core.Path.{subst}
use go_commerce_microservice.External.{Uuid, UuidText}
use go_commerce_microservice.Json.{Body}
use go_commerce_microservice.Sql.{Result, ok, err}
use go_commerce_microservice.Messaging.Delivery.{Delivery, Table, Properties}
use go_commerce_microservice.Messaging.Publisher.{Sent, inventory_event_routing_key}
use go_commerce_microservice.Messaging.Retry.{RetryPolicy}
use go_commerce_microservice.Order.Domain.{OrderStatus, confirmed, failed}
use go_commerce_microservice.Order.Schema.{OrderDb}
use go_commerce_microservice.Order.Repository.{confirm_order, reject_order}
use go_commerce_microservice.Order.Service.{handle_confirm_order, handle_reject_order}
use go_commerce_microservice.Order.Consumer as OrderConsumer
use go_commerce_microservice.Order.Consumer.{
  Handled, after_handling, handle_stock_reserved, handle_stock_not_reserved,
}
use go_commerce_microservice.Inventory.Schema.{InventoryDb, ReserveStockItem}
use go_commerce_microservice.Inventory.Repository.{build_stock_event_payload}
use go_commerce_microservice.Saga.{HaveInts, answer_round_trip}
use go_commerce_microservice.Saga.Broker.{IsGenuine}
use go_commerce_microservice.Saga.System.{delivery_of}
use go_commerce_microservice.Saga.Agreement.{Says, IsAnswer, lines_of}
use go_commerce_microservice.Saga.Settlement.{IsSettlement, handle_once-IsSettlement}
use go_commerce_microservice.Saga.Settled.{apart, reserved_type, not_reserved_type}

after_handling-db :
    (p : RetryPolicy) (t : OrderConsumer.Turn) (d : Delivery) (r : Result (Unit {0})) (db : OrderDb)
    → (after_handling p t d (r, db)).db ≡ db
unfolding after_handling
after_handling-db p t d (ok x) db = refl
after_handling-db p t d (err e) db = refl

module _ (u : UuidText) (p : RetryPolicy) (t : OrderConsumer.Turn) (answer_id order_id : Uuid)
    (reason : String) (lines : List ReserveStockItem) (o : OrderDb) (ints : HaveInts lines) where
  reserved_delivery :
      (d : Delivery)
      → d.body ≡ build_stock_event_payload u answer_id order_id "" lines
      → IsSettlement confirmed order_id o (handle_stock_reserved u p t d o).db
  unfolding handle_confirm_order confirm_order
  reserved_delivery d h =
      let e : Delivery = record d {
        body = build_stock_event_payload u answer_id order_id "" lines;
      } in
      let handles = (answer_round_trip u p t d e answer_id order_id "" lines o ints h refl).0 in
      let (r, db) = handle_confirm_order t.faults t.now t.inbox_id order_id answer_id d.body o in
      subst (IsSettlement confirmed order_id o)
        (sym (ap (λ x. x.db) handles ∙ after_handling-db p t d r db))
        (handle_once-IsSettlement confirmed t.faults t.now t.inbox_id answer_id order_id
          "StockReserved" d.body o)

  not_reserved_delivery :
      (d : Delivery)
      → d.body ≡ build_stock_event_payload u answer_id order_id reason lines
      → IsSettlement failed order_id o (handle_stock_not_reserved u p t d o).db
  unfolding handle_reject_order reject_order
  not_reserved_delivery d h =
      let e : Delivery = record d {
        body = build_stock_event_payload u answer_id order_id "" lines;
      } in
      let handles = (answer_round_trip u p t e d answer_id order_id reason lines o ints refl h).1 in
      let (r, db) = handle_reject_order t.faults t.now t.inbox_id order_id answer_id d.body o in
      subst (IsSettlement failed order_id o)
        (sym (ap (λ x. x.db) handles ∙ after_handling-db p t d r db))
        (handle_once-IsSettlement failed t.faults t.now t.inbox_id answer_id order_id
          "StockReservationFailed" d.body o)

-- What a delivery from a queue of answers does: it settles an order whose answer the outbox holds.
pub record IsAnswered (to : OrderStatus) (event_type : String) (i : InventoryDb) (o o' : OrderDb)
    : Type 0 where
  pub order_id : Uuid
  pub says : (b : Body) × Says i.outbox order_id event_type b
  pub settlement : IsSettlement to order_id o o'

module _ (u : UuidText) (exchange : String) (p : RetryPolicy) (t : OrderConsumer.Turn) (o : OrderDb)
    (i : InventoryDb) (m : Sent) (headers : Table) (properties : Properties)
    (answers : (id : Uuid) (e : String) (b : Body)
      → Says i.outbox id e b
      → IsAnswer u exchange o i id e b)
    (genuine : IsGenuine inventory_event_routing_key exchange (Says i.outbox) m) where
  abbrev answer : IsAnswer u exchange o i genuine.id genuine.event_type m.payload
  answer = answers genuine.id genuine.event_type m.payload genuine.event

  pub confirm-IsAnswered :
      m.routing_key ≡ "stock.reserved"
      → IsAnswered confirmed "StockReserved" i o
          (handle_stock_reserved u p t (delivery_of m headers properties) o).db
  confirm-IsAnswered key =
      let typed = reserved_type genuine.event_type (genuine.routed ∙ ap ok key) in
      elim answer.outcome [
        | inl granted ↦ record {
          order_id = genuine.id;
          says = (m.payload, subst (λ e. Says i.outbox genuine.id e m.payload) typed genuine.event);
          settlement =
              reserved_delivery u p t granted.answer_id genuine.id "" (lines_of answer.order) o
                answer.ints (delivery_of m headers properties) granted.written;
        }
        | inr denied ↦
            absurd (apart "StockReserved" "StockReservationFailed" refl (sym typed ∙ denied.typed))
      ]

  pub reject-IsAnswered :
      m.routing_key ≡ "stock.notreserved"
      → IsAnswered failed "StockReservationFailed" i o
          (handle_stock_not_reserved u p t (delivery_of m headers properties) o).db
  reject-IsAnswered key =
      let typed = not_reserved_type genuine.event_type (genuine.routed ∙ ap ok key) in
      elim answer.outcome [
        | inl granted ↦
            absurd (apart "StockReserved" "StockReservationFailed" refl (sym granted.typed ∙ typed))
        | inr denied ↦ record {
          order_id = genuine.id;
          says = (m.payload, subst (λ e. Says i.outbox genuine.id e m.payload) typed genuine.event);
          settlement =
              not_reserved_delivery u p t denied.answer_id genuine.id denied.reason
                (lines_of answer.order) o answer.ints (delivery_of m headers properties)
                denied.written;
        }
      ]
