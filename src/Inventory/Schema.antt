-- ===== src/Inventory/Schema.antt =====
-- services/inventory-service/internal/domain and migrations: the tables of the inventory service,
-- with the keys and the CHECK constraints of its schema.
use go_commerce_microservice.Prelude.{
  String, Bool, ◌&&◌, ◌||◌, none, some, List, ◌==◌, if◌then◌else◌,
}
use go_commerce_microservice.Prelude.Int.{ℤ, pos, leb_ℤ}
use go_commerce_microservice.Error.{Error, Sentinel}
use go_commerce_microservice.External.{Uuid, Time}
use go_commerce_microservice.Json.{Body}
use go_commerce_microservice.Sql.{ok, err, Call}
use go_commerce_microservice.Sql.Rows.{insert_unique, update_where}
use go_commerce_microservice.Outbox.{OutboxMessage}

-- `RESERVED`, `RELEASED` and `FAILED`, the values that the schema allows.
pub data ReservationStatus : Type 0 where
  reserved released failed : ReservationStatus

pub record ReserveStockItem : Type 0 where
  pub product_id : Uuid
  pub quantity : ℤ

-- A row of `inventory`.
pub record InventoryDataModel : Type 0 where
  pub id : Uuid
  pub product_id : Uuid
  pub available_quantity : ℤ
  pub reserved_quantity : ℤ
  pub created_at : Time
  pub updated_at : Time

-- A row of `stock_reservations`.
pub record StockReservationDataModel : Type 0 where
  pub id : Uuid
  pub order_id : Uuid
  pub product_id : Uuid
  pub quantity : ℤ
  pub status : ReservationStatus
  pub created_at : Time
  pub updated_at : Time

-- A row of `inbox_messages`.
pub record InboxMessageDataModel : Type 0 where
  pub id : Uuid
  pub message_id : Uuid
  pub event_type : String
  pub payload : Body
  pub processed_at : Time

pub record InventoryDb : Type 0 where
  pub inventory : List InventoryDataModel
  pub reservations : List StockReservationDataModel
  pub outbox : List OutboxMessage
  pub inbox : List InboxMessageDataModel

-- `Updates` of one row by its primary key, under the checks that neither quantity is negative.
abbrev pub has_id : Uuid → InventoryDataModel → Bool
has_id id row = row.id == id

abbrev pub set_quantities : ℤ → ℤ → Time → InventoryDataModel → InventoryDataModel
set_quantities available held now row = record row {
  available_quantity = available;
  reserved_quantity = held;
  updated_at = now;
}

unfoldable pub update_inventory : Uuid → ℤ → ℤ → Time → Call InventoryDb (Unit {0})
update_inventory id available held now s =
    if leb_ℤ (pos 0) available && leb_ℤ (pos 0) held
    then (
      ok tt,
      record s {
        inventory = update_where (has_id id) (set_quantities available held now) s.inventory;
      },
    )
    else (err (Error.sentinel Sentinel.check_violation), s)

-- `UNIQUE(order_id, product_id)`
unfoldable pub same_line : StockReservationDataModel → StockReservationDataModel → Bool
same_line a b = a.order_id == b.order_id && a.product_id == b.product_id

-- A reservation holds at least one piece, has a key of its own, and is the only one of its order
-- for its product.
unfoldable pub create_reservation : StockReservationDataModel → Call InventoryDb (Unit {0})
create_reservation row s =
    if leb_ℤ (pos 1) row.quantity
    then (elim (insert_unique (λ a b. same_line a b || a.id == b.id) row s.reservations) [
      | none ↦ (err (Error.sentinel Sentinel.unique_violation), s)
      | some rows ↦ (ok tt, record s { reservations = rows })
    ])
    else (err (Error.sentinel Sentinel.check_violation), s)

unfoldable pub create_outbox_row : OutboxMessage → Call InventoryDb (Unit {0})
create_outbox_row row s = elim (insert_unique (λ a b. a.id == b.id) row s.outbox) [
  | none ↦ (err (Error.sentinel Sentinel.unique_violation), s)
  | some rows ↦ (ok tt, record s { outbox = rows })
]

unfoldable pub has_message : Uuid → InboxMessageDataModel → Bool
has_message message_id row = row.message_id == message_id

unfoldable pub create_inbox_row : InboxMessageDataModel → Call InventoryDb (Unit {0})
create_inbox_row row s = elim (insert_unique (λ a b. has_message a.message_id b) row s.inbox) [
  | none ↦ (err (Error.sentinel Sentinel.unique_violation), s)
  | some rows ↦ (ok tt, record s { inbox = rows })
]
