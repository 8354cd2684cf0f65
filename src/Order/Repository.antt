-- ===== src/Order/Repository.antt =====
-- services/order-service/internal/adapter/repository: the calls of the order and the inbox
-- repository, each a statement or a transaction that the environment may make fail.
use go_commerce_microservice.Prelude.{
  String, Bool, true, false, ◌&&◌, none, some, List, map, ltb, ◌==◌, if◌then◌else◌,
}
use go_commerce_microservice.Error.{Error, Sentinel, is_error}
use go_commerce_microservice.External.{Uuid, Time}
use go_commerce_microservice.Outbox.{OutboxMessage}
use go_commerce_microservice.Json.{Body}
use go_commerce_microservice.Sql.{Result, ok, err, Fault, Call, statement, transaction, ◌>>◌}
use go_commerce_microservice.Sql.Rows.{
  insert_unique, first_where, update_where, select_where, count_where,
}
use go_commerce_microservice.Order.Domain.{OrderStatus, confirmed, failed, Order}
use go_commerce_microservice.Order.Schema.{
  Columns, OrderDataModel, OrderItemDataModel, InboxMessageDataModel, OrderDb, to_order_data_model,
  to_order_item_data_model, to_domain_order, violation, create_order_row, create_item_rows,
  create_outbox_row,
}

-- What the environment does to each statement of a call, and the values that its columns take.
pub record Faults : Type 0 where
  pub columns : Columns
  pub create_order : Fault
  pub create_items : Fault
  pub create_outbox : Fault
  pub commit : Fault
  pub is_processed : Fault
  pub update_order : Fault
  pub save_processed : Fault

-- The body of `CreateWithOutbox`'s transaction.
unfoldable pub create_body : Faults → Order → OutboxMessage → Call OrderDb (Unit {0})
create_body f order message = do
  statement f.create_order (create_order_row f.columns (to_order_data_model order))
  statement f.create_items (create_item_rows f.columns (map to_order_item_data_model order.items))
  statement f.create_outbox (create_outbox_row message)

unfoldable pub create_with_outbox : Faults → Order → OutboxMessage → Call OrderDb (Unit {0})
create_with_outbox f order message = transaction f.commit (create_body f order message)

-- `WHERE id = ? AND status = 'PENDING'`
is_pending : OrderStatus → Bool
is_pending OrderStatus.pending = true
is_pending _ = false

unfoldable pub is_open : Uuid → OrderDataModel → Bool
unfolding is_pending
is_open order_id row = row.id == order_id && is_pending row.status

unfoldable pub set_status : OrderStatus → Time → OrderDataModel → OrderDataModel
set_status status now row = record row { status = status; updated_at = now }

-- `Updates` of the status and the time where the order is still pending. The number of rows that
-- are updated is not looked at: no match is no error.
unfoldable pub settle_order : OrderStatus → Fault → Time → Uuid → Call OrderDb (Unit {0})
settle_order to fault now order_id =
    statement fault λ s.
      (ok tt, record s { orders = update_where (is_open order_id) (set_status to now) s.orders })

unfoldable pub confirm_order : Fault → Time → Uuid → Call OrderDb (Unit {0})
confirm_order = settle_order confirmed

unfoldable pub reject_order : Fault → Time → Uuid → Call OrderDb (Unit {0})
reject_order = settle_order failed

-- `Preload("Items")`: the items whose `order_id` is the order's.
items_of : OrderDb → Uuid → List OrderItemDataModel
items_of s order_id = select_where (λ row. row.order_id == order_id) s.order_items

-- gorm's `First` raises `ErrRecordNotFound`, which becomes `ErrOrderNotFound`.
not_found : Error → Error
not_found e =
    if is_error e Sentinel.record_not_found then Error.sentinel Sentinel.order_not_found else e

first_order : Uuid → Call OrderDb Order
unfolding items_of
first_order order_id s = elim (first_where (λ row. row.id == order_id) s.orders) [
  | none ↦ (err (Error.sentinel Sentinel.record_not_found), s)
  | some row ↦ (ok (to_domain_order row (items_of s row.id)), s)
]

translate : Result Order → Result Order
unfolding not_found
translate (ok order) = ok order
translate (err e) = err (not_found e)

unfoldable pub get_order : Fault → Uuid → Call OrderDb Order
unfolding first_order translate
get_order fault order_id s =
    let (r, s') = statement fault (first_order order_id) s in (translate r, s')

unfoldable pub get_orders : Fault → Call OrderDb (List Order)
unfolding items_of
get_orders fault =
    statement fault λ s. (ok (map (λ row. to_domain_order row (items_of s row.id)) s.orders), s)

unfoldable pub has_message : Uuid → InboxMessageDataModel → Bool
has_message message_id row = row.message_id == message_id

unfoldable pub is_processed : Fault → Uuid → Call OrderDb Bool
is_processed fault message_id =
    statement fault λ s. (ok (ltb 0 (count_where (has_message message_id) s.inbox)), s)

-- `message_id` is unique in the schema.
unfoldable pub save_processed : Fault → Uuid → Time → Uuid → String → Body → Call OrderDb (Unit {0})
unfolding violation
save_processed fault id now message_id event_type payload = statement fault λ s.
    let row : InboxMessageDataModel = record {
      id = id;
      message_id = message_id;
      event_type = event_type;
      payload = payload;
      processed_at = now;
    } in
    elim (insert_unique (λ a b. has_message a.message_id b) row s.inbox) [
      | none ↦ (violation, s)
      | some rows ↦ (ok tt, record s { inbox = rows })
    ]
