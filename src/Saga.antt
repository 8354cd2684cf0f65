-- ===== src/Saga.antt =====
-- The stock reservation across the services: the payloads of event_payload and buildStockEventPayload,
-- and their readers in the other service's consumers.
pub mod Events
pub mod Broker
pub mod System
pub mod Agreement
pub mod Says
pub mod Orders
pub mod Ticks
pub mod Settlement
pub mod Settled
pub mod Answered
pub mod Replies
pub mod Stock
pub mod Consistent
pub mod Deliveries
pub mod Steps
pub mod Outcomes
pub mod Phases
use go_commerce_microservice.Prelude.{
  ◌≡◌, refl, ap, true, some, String, List, [], ◌∷◌, map, All, ◌∙◌,
}
use go_commerce_microservice.Prelude.Int.{ℤ}
use go_commerce_microservice.External.{Uuid, UuidText}
use go_commerce_microservice.Json.{Json, Items, Fields, is_int64, elements_onto, memory_for-empty}
use go_commerce_microservice.Messaging.Events.{
  Item, no_item, item_of_fields, item_of, items_of, items_field, items_member, event_of_fields,
  not_reserved_of_fields, unmarshal,
}
use go_commerce_microservice.Order.Domain.{Order, OrderItems}
use go_commerce_microservice.Order.Service.{reserve_stock_items, event_payload}
use go_commerce_microservice.Inventory.Schema.{ReserveStockItem}
use go_commerce_microservice.Inventory.Repository.{
  event_items, reason_field, build_stock_event_payload,
}
use go_commerce_microservice.Inventory.Consumer.{reserve_items, read_request}
use go_commerce_microservice.Messaging.Delivery.{Delivery}
use go_commerce_microservice.Messaging.Retry.{RetryPolicy}
use go_commerce_microservice.Order.Schema.{OrderDb}
use go_commerce_microservice.Order.Service.{handle_confirm_order, handle_reject_order}
use go_commerce_microservice.Order.Consumer.{
  Turn, after_handling, with_event, with_message_id, with_order_id, handle_delivery,
  handle_stock_reserved, handle_stock_not_reserved,
}

abbrev written_line : UuidText → ReserveStockItem → Item
written_line u item = record { product_id = u.print item.product_id; quantity = item.quantity }

abbrev pub line_of : OrderItems → ReserveStockItem
line_of item = record { product_id = item.product_id; quantity = item.quantity }

-- The quantities are Go `int`s.
abbrev pub HaveInts : List ReserveStockItem → Type 0
HaveInts items = All (λ item. is_int64 item.quantity ≡ true) items

item_read :
    (product_id : String) (quantity : ℤ)
    → is_int64 quantity ≡ true
    → item_of no_item (
        Json.object (
          Fields.field "product_id"
            (Json.text product_id)
            (Fields.field "quantity" (Json.integer quantity) Fields.end)))
      ≡ some (record { product_id = product_id; quantity = quantity })
unfolding item_of item_of_fields
item_read product_id quantity h = rw h refl

items_read :
    (u : UuidText) (items : List ReserveStockItem)
    → HaveInts items
    → items_of (event_items u items) []
      ≡ some (record { visible = map (written_line u) items; spare = [] })
unfolding items_of event_items elements_onto
items_read u [] h = refl
items_read u (item ∷ items) (h, hs) =
    rw (item_read (u.print item.product_id) item.quantity h, items_read u items hs) refl

lines_read :
    (u : UuidText) (items : List ReserveStockItem)
    → reserve_items u (map (written_line u) items) ≡ some items
unfolding reserve_items
lines_read u [] = refl
lines_read u (item ∷ items) = rw (u.parse-print item.product_id, lines_read u items) refl

same_lines :
    (u : UuidText) (items : List OrderItems)
    → reserve_stock_items u items ≡ event_items u (map line_of items)
unfolding reserve_stock_items event_items
same_lines u [] = refl
same_lines u (item ∷ items) = rw (same_lines u items) refl

payload_read :
    (u : UuidText) (message_id order_id : Uuid) (lines : Items) (items : List Item)
    → items_of lines [] ≡ some (record { visible = items; spare = [] })
    → event_of_fields (
        Fields.field "items" (Json.array lines) (
          Fields.field "message_id"
            (Json.text (u.print message_id))
            (Fields.field "order_id" (Json.text (u.print order_id)) Fields.end)))
      ≡ some
          (record { message_id = u.print message_id; order_id = u.print order_id; items = items })
unfolding event_of_fields items_field items_member
payload_read u message_id order_id lines items h = rw (memory_for-empty lines, h) refl

-- What the inventory service reads of an order's `ReserveStockRequested` payload is what the order
-- service has written: the event's identifier, the order's, and the product and the quantity of
-- each item in order, where UUIDs are read back as printed and the quantities are 64-bit integers.
pub request_round_trip :
    (u : UuidText) (event_id : Uuid) (order : Order)
    → HaveInts (map line_of order.items)
    → read_request u (event_payload u event_id order)
      ≡ some
          (record { message_id = event_id; order_id = order.id; items = map line_of order.items })
unfolding read_request event_payload unmarshal
request_round_trip u event_id order h =
    let lines = map line_of order.items in
    let read =
      payload_read u event_id order.id (reserve_stock_items u order.items)
        (map (written_line u) lines) (rw (same_lines u order.items) (items_read u lines h)) in
    rw (read, lines_read u lines, u.parse-print event_id, u.parse-print order.id) refl

reserved_read :
    (u : UuidText) (event_id order_id : Uuid) (items : List ReserveStockItem)
    → HaveInts items
    → unmarshal event_of_fields (build_stock_event_payload u event_id order_id "" items)
      ≡ some (record {
        message_id = u.print event_id;
        order_id = u.print order_id;
        items = map (written_line u) items;
      })
unfolding unmarshal build_stock_event_payload reason_field
reserved_read u event_id order_id items h =
    payload_read u event_id order_id (event_items u items) (map (written_line u) items)
      (items_read u items h)

not_reserved_read :
    (u : UuidText) (event_id order_id : Uuid) (reason : String) (items : List ReserveStockItem)
    → HaveInts items
    → unmarshal not_reserved_of_fields (build_stock_event_payload u event_id order_id reason items)
      ≡ some (record {
        message_id = u.print event_id;
        order_id = u.print order_id;
        items = map (written_line u) items;
      })
unfolding unmarshal build_stock_event_payload reason_field not_reserved_of_fields event_of_fields
    items_field items_member
not_reserved_read u event_id order_id String.[] items h =
    rw (memory_for-empty (event_items u items), items_read u items h) refl
not_reserved_read u event_id order_id (String.◌∷◌ c reason) items h =
    rw (memory_for-empty (event_items u items), items_read u items h) refl

-- A delivery of the inventory service's answer makes the order service call the handler that
-- belongs to it, `HandleConfirmOrder` for `StockReserved` and `HandleRejectOrder` for
-- `StockReservationFailed` with any reason, with the identifiers of the order and of the event that
-- the answer was written with, where UUIDs are read back as printed and the quantities are 64-bit
-- integers; the delivery is settled by that call's result.
pub answer_round_trip :
    (u : UuidText) (p : RetryPolicy) (t : Turn) (d e : Delivery) (event_id order_id : Uuid)
    (reason : String) (items : List ReserveStockItem) (db : OrderDb)
    → HaveInts items
    → d.body ≡ build_stock_event_payload u event_id order_id "" items
    → e.body ≡ build_stock_event_payload u event_id order_id reason items
    → (handle_stock_reserved u p t d db
        ≡ after_handling p t d
            (handle_confirm_order t.faults t.now t.inbox_id order_id event_id d.body db))
      × (handle_stock_not_reserved u p t e db
          ≡ after_handling p t e
              (handle_reject_order t.faults t.now t.inbox_id order_id event_id e.body db))
unfolding handle_stock_reserved handle_stock_not_reserved handle_delivery with_event with_message_id
    with_order_id
answer_round_trip u p t d e event_id order_id reason items db h reserved failed = (
  rw
      (
        ap (unmarshal event_of_fields) reserved ∙ reserved_read u event_id order_id items h,
        u.parse-print event_id,
        u.parse-print order_id,
      )
      refl,
  rw
      (
        ap (unmarshal not_reserved_of_fields) failed
            ∙ not_reserved_read u event_id order_id reason items h,
        u.parse-print event_id,
        u.parse-print order_id,
      )
      refl,
)
