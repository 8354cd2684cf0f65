-- ===== src/Inventory/Repository.antt =====
-- services/inventory-service/internal/adapter/repository/inventory_repository_pg.go: reserving the
-- stock of an order in one transaction with the inbox and the outbox.
use Prim.Native.String.{◌++◌ as concat}
use go_commerce_microservice.Prelude.{
  ℕ, ◌+◌, String, Bool, true, false, Option, none, some, List, [], ◌∷◌, ltb, ◌==◌, if◌then◌else◌,
}
use go_commerce_microservice.Prelude.Int.{pos, ◌+ℤ◌, ◌-ℤ◌, ltb_ℤ}
use go_commerce_microservice.External.{Uuid, Time, UuidText, Fresh}
use go_commerce_microservice.Json.{Items, Fields, Body, document, text, integer, array, object}
use go_commerce_microservice.Sql.{
  Result, ok, err, Fault, Call, pure, statement, transaction, ◌>>=◌, ◌>>◌,
}
use go_commerce_microservice.Sql.Rows.{count_where, first_where}
use go_commerce_microservice.Outbox.{OutboxMessage}
use go_commerce_microservice.Inventory.Schema.{
  ReservationStatus, ReserveStockItem, InventoryDataModel, StockReservationDataModel, InventoryDb,
  update_inventory, create_reservation, create_outbox_row, create_inbox_row, has_message,
}

-- What the environment does to the statements of one call; the loops' are numbered by item.
pub record Faults : Type 0 where
  pub is_processed : Fault
  pub lock : ℕ → Fault
  pub update : ℕ → Fault
  pub reserve : ℕ → Fault
  pub create_outbox : Fault
  pub create_inbox : Fault
  pub commit : Fault

-- What one call draws from outside: identifiers and the clock.
pub record Draws : Type 0 where
  pub reservation_id : Fresh
  pub event_id : Uuid
  pub outbox_id : Uuid
  pub inbox_id : Uuid
  pub reserve_time : Time
  pub outbox_time : Time
  pub inbox_time : Time

-- The map from a product to its locked row. A missing key would give Go's zero value.
abbrev pub Inventories : Type 0
Inventories = List (Uuid × InventoryDataModel)

abbrev zero_row : InventoryDataModel
zero_row = record {
  id = 0;
  product_id = 0;
  available_quantity = pos 0;
  reserved_quantity = pos 0;
  created_at = 0;
  updated_at = 0;
}

-- Assignments are put in front, so the last one to a key is found.
unfoldable pub inventory_for : Uuid → Inventories → InventoryDataModel
inventory_for p [] = zero_row
inventory_for p ((q, row) ∷ rest) = if q == p then row else inventory_for p rest

-- `success`, `reason` and `inventories` of `checkAndLockStock`.
pub data StockCheck : Type 0 where
  in_stock : Inventories → StockCheck
  out_of_stock : String → StockCheck

unfoldable pub is_message_processed : Fault → Uuid → Call InventoryDb Bool
is_message_processed fault message_id =
    statement fault λ s. (ok (ltb 0 (count_where (has_message message_id) s.inbox)), s)

-- `SELECT ... WHERE product_id = ? FOR UPDATE LIMIT 1`
unfoldable pub lock_row : Fault → Uuid → Call InventoryDb (Option InventoryDataModel)
lock_row fault product_id =
    statement fault λ s. (ok (first_where (λ row. row.product_id == product_id) s.inventory), s)

-- What one round of the check finds: the row, or the reason to stop.
pub data Examined : Type 0 where
  enough : InventoryDataModel → Examined
  lacking : String → Examined

unfoldable pub examine :
    UuidText → ReserveStockItem → Result (Option InventoryDataModel) → Result Examined
examine u item (err e) = err e
examine u item (ok none) =
    ok (Examined.lacking (concat "inventory not found for product " (u.print item.product_id)))
examine u item (ok (some row)) =
    if ltb_ℤ row.available_quantity item.quantity
    then ok (Examined.lacking (concat "insufficient stock for product " (u.print item.product_id)))
    else ok (Examined.enough row)

unfoldable pub check_items :
    UuidText → Faults → ℕ → Inventories → List ReserveStockItem → InventoryDb → Result StockCheck
check_items u f n inventories [] s = ok (StockCheck.in_stock inventories)
check_items u f n inventories (item ∷ items) s =
    elim (examine u item (lock_row (f.lock n) item.product_id s).0) [
      | err e ↦ err e
      | ok (Examined.lacking reason) ↦ ok (StockCheck.out_of_stock reason)
      | ok (Examined.enough row) ↦
          check_items u f (n + 1) ((item.product_id, row) ∷ inventories) items s
    ]

-- The check reads and locks; it writes nothing.
unfoldable pub check_and_lock_stock :
    UuidText → Faults → List ReserveStockItem → Call InventoryDb StockCheck
check_and_lock_stock u f items s = (check_items u f 0 [] items s, s)

unfoldable pub reservation : Draws → ℕ → Uuid → ReserveStockItem → StockReservationDataModel
reservation d n order_id item = record {
  id = d.reservation_id n;
  order_id = order_id;
  product_id = item.product_id;
  quantity = item.quantity;
  status = ReservationStatus.reserved;
  created_at = d.reserve_time;
  updated_at = d.reserve_time;
}

-- One round of `reserveStock`: the quantities are computed from the row that was locked.
unfoldable pub reserve_item :
    Faults → Draws → ℕ → Uuid → Inventories → ReserveStockItem → Call InventoryDb (Unit {0})
reserve_item f d n order_id inventories item = do
  statement (f.update n) (
      update_inventory (inventory_for item.product_id inventories).id
        ((inventory_for item.product_id inventories).available_quantity -ℤ item.quantity)
        ((inventory_for item.product_id inventories).reserved_quantity +ℤ item.quantity)
        d.reserve_time)
  statement (f.reserve n) (create_reservation (reservation d n order_id item))

unfoldable pub reserve_stock :
    Faults → Draws → ℕ → Uuid → Inventories → List ReserveStockItem → Call InventoryDb (Unit {0})
reserve_stock f d n order_id inventories [] = pure tt
reserve_stock f d n order_id inventories (item ∷ items) =
    reserve_item f d n order_id inventories item
    >> reserve_stock f d (n + 1) order_id inventories items

unfoldable pub event_items : UuidText → List ReserveStockItem → Items
event_items u [] = Items.nil
event_items u (item ∷ items) =
    Items.cons
      (object (
        Fields.field "product_id" (text (u.print item.product_id))
          (Fields.field "quantity" (integer item.quantity) Fields.end)))
      (event_items u items)

unfoldable pub reason_field : String → Fields
reason_field String.[] = Fields.end
reason_field (String.◌∷◌ c s) = Fields.field "reason" (text (String.◌∷◌ c s)) Fields.end

-- `json.Marshal` writes a map's keys in order.
unfoldable pub build_stock_event_payload :
    UuidText → Uuid → Uuid → String → List ReserveStockItem → Body
unfolding event_items reason_field
build_stock_event_payload u event_id order_id reason items = document (
    object (
      Fields.field "items" (array (event_items u items)) (
        Fields.field "message_id" (text (u.print event_id))
          (Fields.field "order_id" (text (u.print order_id)) (reason_field reason)))))

unfoldable pub outbox_message :
    UuidText → Draws → Uuid → String → String → List ReserveStockItem → OutboxMessage
outbox_message u d order_id event_type reason items = record {
  id = d.outbox_id;
  aggregate_id = order_id;
  aggregate_type = "Order";
  event_type = event_type;
  payload = build_stock_event_payload u d.event_id order_id reason items;
  retry_count = 0;
  created_at = d.outbox_time;
  processed_at = none;
}

unfoldable pub insert_outbox :
    UuidText
    → Faults
    → Draws
    → Uuid
    → String
    → String
    → List ReserveStockItem
    → Call InventoryDb (Unit {0})
insert_outbox u f d order_id event_type reason items =
    statement f.create_outbox
      (create_outbox_row (outbox_message u d order_id event_type reason items))

unfoldable pub insert_inbox : Faults → Draws → Uuid → String → Body → Call InventoryDb (Unit {0})
insert_inbox f d message_id event_type payload = statement f.create_inbox (
    create_inbox_row (record {
      id = d.inbox_id;
      message_id = message_id;
      event_type = event_type;
      payload = payload;
      processed_at = d.inbox_time;
    }))

-- The two branches on `success`.
unfoldable pub answer_check :
    UuidText
    → Faults
    → Draws
    → Uuid
    → List ReserveStockItem
    → StockCheck
    → Call InventoryDb (Unit {0})
answer_check u f d order_id items (StockCheck.in_stock inventories) = do
  reserve_stock f d 0 order_id inventories items
  insert_outbox u f d order_id "StockReserved" "" items
answer_check u f d order_id items (StockCheck.out_of_stock reason) =
    insert_outbox u f d order_id "StockReservationFailed" reason items

unfoldable pub reserve_unless_processed :
    UuidText
    → Faults
    → Draws
    → Uuid
    → Uuid
    → List ReserveStockItem
    → Body
    → Bool
    → Call InventoryDb (Unit {0})
reserve_unless_processed u f d message_id order_id items payload true = pure tt
reserve_unless_processed u f d message_id order_id items payload false = do
  check ← check_and_lock_stock u f items
  answer_check u f d order_id items check
  insert_inbox f d message_id "ReserveStockRequested" payload

-- The body of the transaction, and the call itself.
unfoldable pub reserve_body :
    UuidText
    → Faults
    → Draws
    → Uuid
    → Uuid
    → List ReserveStockItem
    → Body
    → Call InventoryDb (Unit {0})
unfolding reserve_unless_processed
reserve_body u f d message_id order_id items payload = do
  processed ← is_message_processed f.is_processed message_id
  reserve_unless_processed u f d message_id order_id items payload processed

unfoldable pub reserve_stock_with_inbox_and_outbox :
    UuidText
    → Faults
    → Draws
    → Uuid
    → Uuid
    → List ReserveStockItem
    → Body
    → Call InventoryDb (Unit {0})
reserve_stock_with_inbox_and_outbox u f d message_id order_id items payload =
    transaction f.commit (reserve_body u f d message_id order_id items payload)
