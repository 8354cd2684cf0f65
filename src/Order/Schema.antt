-- ===== src/Order/Schema.antt =====
-- services/order-service/internal/adapter/repository and migrations: the tables of the order
-- service, the mapping of its domain to rows, and the inserts under the schema's keys.
use go_commerce_microservice.Prelude.{
  String, Bool, true, ◌&&◌, Option, none, some, List, [], ◌∷◌, map, ◌==◌, if◌then◌else◌,
}
use go_commerce_microservice.Prelude.Int.{ℤ, pos, leb_ℤ}
use go_commerce_microservice.Error.{Error, Sentinel}
use go_commerce_microservice.External.{Uuid, Time, Float64}
use go_commerce_microservice.Outbox.{OutboxMessage}
use go_commerce_microservice.Json.{Body}
use go_commerce_microservice.Sql.{Result, ok, err, Call}
use go_commerce_microservice.Sql.Rows.{insert_unique}
use go_commerce_microservice.Order.Domain.{OrderStatus, OrderItems, Order}

-- A row of `orders`; the items stand in their own table.
pub record OrderDataModel : Type 0 where
  pub id : Uuid
  pub customer_id : Uuid
  pub status : OrderStatus
  pub total_amount : Float64
  pub created_at : Time
  pub updated_at : Time

-- A row of `order_items`.
pub record OrderItemDataModel : Type 0 where
  pub id : Uuid
  pub order_id : Uuid
  pub product_id : Uuid
  pub product_name : String
  pub unit_price : Float64
  pub quantity : ℤ
  pub subtotal : Float64

-- A row of `inbox_messages`.
pub record InboxMessageDataModel : Type 0 where
  pub id : Uuid
  pub message_id : Uuid
  pub event_type : String
  pub payload : Body
  pub processed_at : Time

pub record OrderDb : Type 0 where
  pub orders : List OrderDataModel
  pub order_items : List OrderItemDataModel
  pub outbox : List OutboxMessage
  pub inbox : List InboxMessageDataModel

unfoldable pub to_order_data_model : Order → OrderDataModel
to_order_data_model order = record {
  id = order.id;
  customer_id = order.customer_id;
  status = order.status;
  total_amount = order.total_amount;
  created_at = order.created_at;
  updated_at = order.updated_at;
}

unfoldable pub to_order_item_data_model : OrderItems → OrderItemDataModel
to_order_item_data_model item = record {
  id = item.id;
  order_id = item.order_id;
  product_id = item.product_id;
  product_name = item.product_name;
  unit_price = item.unit_price;
  quantity = item.quantity;
  subtotal = item.subtotal;
}

to_domain_order_item : OrderItemDataModel → OrderItems
to_domain_order_item item = record {
  id = item.id;
  order_id = item.order_id;
  product_id = item.product_id;
  product_name = item.product_name;
  unit_price = item.unit_price;
  quantity = item.quantity;
  subtotal = item.subtotal;
}

unfoldable pub to_domain_order : OrderDataModel → List OrderItemDataModel → Order
unfolding to_domain_order_item
to_domain_order model items = record {
  id = model.id;
  customer_id = model.customer_id;
  status = model.status;
  total_amount = model.total_amount;
  created_at = model.created_at;
  updated_at = model.updated_at;
  items = map to_domain_order_item items;
}

-- `INSERT INTO orders`, `order_items`, `outbox_messages` and `inbox_messages`: a primary key, or
-- a unique `message_id`, that is taken is an error, and so is a value that its column refuses.
unfoldable pub violation : {A : Type 0} → Result A
violation = err (Error.sentinel Sentinel.unique_violation)

-- What Postgres says of a value and a column's type with its CHECK: whether `NUMERIC(12, 2)` with
-- `CHECK (... >= 0)` takes a float, and `VARCHAR(255)` a text.
pub record Columns : Type 0 where
  pub numeric : Float64 → Bool
  pub varchar : String → Bool

unfoldable pub misfit : {A : Type 0} → Result A
misfit = err (Error.sentinel Sentinel.check_violation)

unfoldable pub create_order_row : Columns → OrderDataModel → Call OrderDb (Unit {0})
unfolding violation misfit
create_order_row k row s =
    if k.numeric row.total_amount
    then (elim (insert_unique (λ a b. a.id == b.id) row s.orders) [
      | none ↦ (violation, s)
      | some rows ↦ (ok tt, record s { orders = rows })
    ])
    else (misfit, s)

-- The columns of `order_items`; `quantity INT NOT NULL CHECK (quantity > 0)`.
unfoldable pub fits_columns : Columns → OrderItemDataModel → Bool
fits_columns k row =
    k.varchar row.product_name
    && k.numeric row.unit_price
    && (leb_ℤ (pos 1) row.quantity && leb_ℤ row.quantity (pos 2147483647))
    && k.numeric row.subtotal

unfoldable pub all_fit : Columns → List OrderItemDataModel → Bool
unfolding fits_columns
all_fit k [] = true
all_fit k (row ∷ rows) = fits_columns k row && all_fit k rows

unfoldable pub insert_items :
    List OrderItemDataModel → List OrderItemDataModel → Option (List OrderItemDataModel)
insert_items [] table = some table
insert_items (row ∷ rows) table = elim (insert_unique (λ a b. a.id == b.id) row table) [
  | none ↦ none
  | some table' ↦ insert_items rows table'
]

-- gorm refuses to create from an empty slice.
unfoldable pub create_item_rows : Columns → List OrderItemDataModel → Call OrderDb (Unit {0})
unfolding violation misfit insert_items all_fit
create_item_rows k [] s = (err (Error.message "empty slice found"), s)
create_item_rows k (row ∷ rows) s =
    if all_fit k (row ∷ rows)
    then (elim (insert_items (row ∷ rows) s.order_items) [
      | none ↦ (violation, s)
      | some table ↦ (ok tt, record s { order_items = table })
    ])
    else (misfit, s)

unfoldable pub create_outbox_row : OutboxMessage → Call OrderDb (Unit {0})
unfolding violation
create_outbox_row row s = elim (insert_unique (λ a b. a.id == b.id) row s.outbox) [
  | none ↦ (violation, s)
  | some rows ↦ (ok tt, record s { outbox = rows })
]
