-- ===== src/Messaging/Events.antt =====
-- The events that the inventory and the order service exchange, as their consumers' structs
-- decode them: services/{order,inventory}-service/internal/adapter/messaging/*_consumer.go.
-- Of several `items` members the last one's lines are kept, each decoded onto the earlier ones.
use go_commerce_microservice.Prelude.{Option, none, some, String, List, [], ◌>>=◌, if◌then◌else◌}
use go_commerce_microservice.Prelude.Int.{ℤ, pos}
use go_commerce_microservice.Json.{
  Json, Items, Fields, Body, malformed, document, equal_fold, text_field, int_field, Slice,
  empty_slice, memory_for, elements_onto,
}

pub record Item : Type 0 where
  pub product_id : String
  pub quantity : ℤ

-- The fields of all three event structs that the handlers read.
pub record Event : Type 0 where
  pub message_id : String
  pub order_id : String
  pub items : List Item

abbrev pub no_item : Item
no_item = record { product_id = ""; quantity = pos 0 }

-- An item is decoded onto an earlier one: a member that is missing leaves the field as it was.
unfoldable pub item_of_fields : Item → Fields → Option Item
item_of_fields earlier fs = do
  product_id ← text_field "product_id" fs (some earlier.product_id)
  quantity ← int_field "quantity" fs (some earlier.quantity)
  some (record { product_id = product_id; quantity = quantity })

unfoldable pub item_of : Item → Json → Option Item
unfolding item_of_fields
item_of earlier (Json.object fs) = item_of_fields earlier fs
item_of earlier Json.null = some earlier
item_of earlier _ = none

unfoldable pub items_of : Items → List Item → Option (Slice Item)
unfolding item_of elements_onto
items_of vs memory = elements_onto item_of no_item vs memory

unfoldable pub items_member : Json → Option (Slice Item) → Option (Slice Item)
unfolding items_of memory_for
items_member (Json.array vs) (some earlier) = items_of vs (memory_for vs earlier)
items_member Json.null (some earlier) = some empty_slice
items_member _ _ = none

unfoldable pub items_field : Fields → Option (Slice Item) → Option (Slice Item)
unfolding items_member
items_field Fields.end acc = acc
items_field (Fields.field k v rest) acc =
    items_field rest (if equal_fold "Items" k then items_member v acc else acc)

-- `StockReservedEvent` and `ReserveStockRequestedEvent`.
unfoldable pub event_of_fields : Fields → Option Event
unfolding items_field
event_of_fields fs = do
  message_id ← text_field "message_id" fs (some "")
  order_id ← text_field "order_id" fs (some "")
  items ← items_field fs (some empty_slice)
  some (record { message_id = message_id; order_id = order_id; items = items.visible })

-- `StockNotReservedEvent` has a reason besides.
unfoldable pub not_reserved_of_fields : Fields → Option Event
unfolding event_of_fields
not_reserved_of_fields fs = do reason ← text_field "reason" fs (some ""); event_of_fields fs

abbrev no_event : Event
no_event = record { message_id = ""; order_id = ""; items = [] }

-- `json.Unmarshal(delivery.Body, &event)` into a struct with the given fields.
unfoldable pub unmarshal : (Fields → Option Event) → Body → Option Event
unmarshal fields malformed = none
unmarshal fields (document (Json.object fs)) = fields fs
unmarshal fields (document Json.null) = some no_event
unmarshal fields (document _) = none
