-- ===== src/Inventory/Consumer.antt =====
-- services/inventory-service/internal/adapter/messaging/reserve_stock_requested_consumer.go.
use go_commerce_microservice.Prelude.{Bool, true, false, Option, none, some, List, [], ◌∷◌, ◌>>=◌}
use go_commerce_microservice.External.{Uuid, UuidText}
use go_commerce_microservice.Json.{Body}
use go_commerce_microservice.Sql.{Result, ok, err}
use go_commerce_microservice.Messaging.Delivery.{
  Delivery, Settlement, acked, requeued, discarded, open_,
}
use go_commerce_microservice.Messaging.Events.{Item, event_of_fields, unmarshal}
use go_commerce_microservice.Inventory.Schema.{ReserveStockItem, InventoryDb}
use go_commerce_microservice.Inventory.Repository.{
  Faults, Draws, reserve_stock_with_inbox_and_outbox,
}

-- What the environment does to one delivery; a broken channel loses its `Ack` or `Nack`.
pub record Turn : Type 0 where
  pub faults : Faults
  pub draws : Draws
  pub channel_open : Bool

unfoldable pub settle : Turn → Settlement → Settlement
settle t s = elim t.channel_open [ true ↦ s | false ↦ open_ ]

-- The loop over the event's items stops at the first identifier that does not parse.
unfoldable pub reserve_items : UuidText → List Item → Option (List ReserveStockItem)
reserve_items u [] = some []
reserve_items u (item ∷ items) = do
  product_id ← u.parse item.product_id
  rest ← reserve_items u items
  some ((record { product_id = product_id; quantity = item.quantity }) ∷ rest)

pub record Request : Type 0 where
  pub message_id : Uuid
  pub order_id : Uuid
  pub items : List ReserveStockItem

-- Everything that is read from the body before the service is called.
unfoldable pub read_request : UuidText → Body → Option Request
unfolding reserve_items
read_request u body = do
  event ← unmarshal event_of_fields body
  items ← reserve_items u event.items
  message_id ← u.parse event.message_id
  order_id ← u.parse event.order_id
  some (record { message_id = message_id; order_id = order_id; items = items })

unfoldable pub after_service : Turn → Result (Unit {0}) × InventoryDb → Settlement × InventoryDb
unfolding settle
after_service t (ok u, db) = (settle t acked, db)
after_service t (err e, db) = (settle t requeued, db)

unfoldable pub with_request :
    UuidText → Turn → Delivery → Option Request → InventoryDb → Settlement × InventoryDb
unfolding settle after_service
with_request u t d none db = (settle t discarded, db)
with_request u t d (some r) db = after_service t (
    reserve_stock_with_inbox_and_outbox u t.faults t.draws r.message_id r.order_id r.items d.body
      db)

unfoldable pub handle_message : UuidText → Turn → Delivery → InventoryDb → Settlement × InventoryDb
unfolding with_request
handle_message u t d db = with_request u t d (read_request u d.body) db
