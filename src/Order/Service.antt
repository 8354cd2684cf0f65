-- ===== src/Order/Service.antt =====
-- services/order-service/internal/service/order_service.go: `CreateOrder` and the two handlers of
-- the stock events.
use go_commerce_microservice.Prelude.{String, Bool, true, false, none, some, List, [], ◌∷◌, map}
use go_commerce_microservice.External.{Uuid, Time, UuidText, FloatOps, Fresh}
use go_commerce_microservice.Json.{Items, Fields, Body, document, text, integer, array, object}
use go_commerce_microservice.Sql.{Call, pure, raise, ◌>>=◌, ◌>>◌}
use go_commerce_microservice.Outbox.{OutboxMessage}
use go_commerce_microservice.Order.Domain.{OrderItems, Order, new_order}
use go_commerce_microservice.Order.Input.{Rules, CreateOrderItemInput, CreateOrderInput, validate}
use go_commerce_microservice.Order.Schema.{OrderDb}
use go_commerce_microservice.Order.Repository.{
  Faults, create_with_outbox, confirm_order, reject_order, is_processed, save_processed,
}

-- What one call draws from outside: identifiers and the clock.
pub record Draws : Type 0 where
  pub fresh : Fresh
  pub now : Time
  pub event_id : Uuid
  pub outbox_id : Uuid
  pub outbox_time : Time

-- An item before `NewOrder` fills in its identifiers and its subtotal.
unfoldable pub to_order_item : CreateOrderItemInput → OrderItems
to_order_item item = record {
  id = 0;
  order_id = 0;
  product_id = item.product_id;
  product_name = item.product_name;
  unit_price = item.unit_price;
  quantity = item.quantity;
  subtotal = 0;
}

unfoldable pub reserve_stock_items : UuidText → List OrderItems → Items
reserve_stock_items u [] = Items.nil
reserve_stock_items u (item ∷ items) =
    Items.cons
      (object (
        Fields.field "product_id" (text (u.print item.product_id))
          (Fields.field "quantity" (integer item.quantity) Fields.end)))
      (reserve_stock_items u items)

unfoldable pub event_payload : UuidText → Uuid → Order → Body
unfolding reserve_stock_items
event_payload u event_id order = document (
    object (
      Fields.field "items" (array (reserve_stock_items u order.items)) (
        Fields.field "message_id" (text (u.print event_id))
          (Fields.field "order_id" (text (u.print order.id)) Fields.end))))

unfoldable pub outbox_message : UuidText → Draws → Order → OutboxMessage
unfolding event_payload
outbox_message u d order = record {
  id = d.outbox_id;
  aggregate_id = order.id;
  aggregate_type = "Order";
  event_type = "ReserveStockRequested";
  payload = event_payload u d.event_id order;
  retry_count = 0;
  created_at = d.outbox_time;
  processed_at = none;
}

unfoldable pub ordered : FloatOps → Draws → CreateOrderInput → Order
unfolding to_order_item new_order
ordered fl d input = new_order fl d.fresh d.now input.customer_id (map to_order_item input.items)

unfoldable pub create_order :
    Rules → UuidText → FloatOps → Faults → Draws → CreateOrderInput → Call OrderDb Order
create_order r u fl f d input = elim (validate r input) [
  | some e ↦ raise e
  | none ↦ do
    create_with_outbox f (ordered fl d input) (outbox_message u d (ordered fl d input))
    pure (ordered fl d input)
]

-- What the two handlers share: look the message up, and unless it is known, update the order and
-- remember the message. `inbox_id` and `now` are drawn by the repository.
unfoldable pub after_lookup :
    Faults
    → Time
    → Uuid
    → Uuid
    → String
    → Body
    → Call OrderDb (Unit {0})
    → Bool
    → Call OrderDb (Unit {0})
after_lookup f now inbox_id message_id event_type payload update true = pure tt
after_lookup f now inbox_id message_id event_type payload update false = do
  update
  save_processed f.save_processed inbox_id now message_id event_type payload

unfoldable pub handle_once :
    Faults → Time → Uuid → Uuid → String → Body → Call OrderDb (Unit {0}) → Call OrderDb (Unit {0})
unfolding after_lookup
handle_once f now inbox_id message_id event_type payload update = do
  done ← is_processed f.is_processed message_id
  after_lookup f now inbox_id message_id event_type payload update done

unfoldable pub handle_confirm_order :
    Faults → Time → Uuid → Uuid → Uuid → Body → Call OrderDb (Unit {0})
handle_confirm_order f now inbox_id order_id message_id payload =
    handle_once f now inbox_id message_id "StockReserved" payload
      (confirm_order f.update_order now order_id)

unfoldable pub handle_reject_order :
    Faults → Time → Uuid → Uuid → Uuid → Body → Call OrderDb (Unit {0})
handle_reject_order f now inbox_id order_id message_id payload =
    handle_once f now inbox_id message_id "StockReservationFailed" payload
      (reject_order f.update_order now order_id)
