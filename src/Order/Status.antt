-- ===== src/Order/Status.antt =====
-- The life of an order: how its row's status moves under the calls of the order service.
pub mod Settled
use go_commerce_microservice.Prelude.{
  ℕ, ◌≡◌, refl, Bool, true, false, Option, none, some, List, [], ◌∷◌, ◌++◌, arith, ◌==◌,
  if◌then◌else◌, String,
}
use go_commerce_microservice.Error.{Error}
use go_commerce_microservice.External.{Uuid, Time}
use go_commerce_microservice.Json.{Body}
use go_commerce_microservice.Sql.{Result, ok, err, Fault, fine, refused, lost, statement}
use go_commerce_microservice.Sql.Rows.{any, first_where, update_where, insert_unique}
use go_commerce_microservice.Outbox.{OutboxMessage}
use go_commerce_microservice.Order.Domain.{Order, OrderStatus, pending, confirmed, failed}
use go_commerce_microservice.Order.Schema.{OrderDataModel, OrderDb}
use go_commerce_microservice.Order.Repository.{
  Faults, create_with_outbox, confirm_order, reject_order, save_processed, is_open, set_status,
}

-- The status that a reader of the order `id` sees.
unfoldable pub status_of : Uuid → List OrderDataModel → Option OrderStatus
unfolding first_where
status_of id rows = elim (first_where (λ row. row.id == id) rows) [
  | none ↦ none
  | some row ↦ some row.status
]

-- Only a pending order takes a new status.
abbrev pub settle : OrderStatus → Option OrderStatus → Option OrderStatus
settle to (some OrderStatus.pending) = some to
settle to from = from

pub status_of-update :
    (id other : Uuid) (to : OrderStatus) (now : Time) (rows : List OrderDataModel)
    → status_of other (update_where (is_open id) (set_status to now) rows)
      ≡ (if id == other then settle to (status_of other rows) else status_of other rows)
unfolding status_of update_where is_open set_status
status_of-update id other to now [] = ground arith
status_of-update id other to now (row ∷ rows) =
    ground (arith, status_of-update id other to now rows)

-- A row at the end is seen only if no row has its identifier.
pub status_of-append :
    (id : Uuid) (rows : List OrderDataModel) (row : OrderDataModel)
    → status_of id (rows ++ row ∷ []) ≡ (elim (status_of id rows) [
      | none ↦ if row.id == id then some row.status else none
      | some st ↦ some st
    ])
unfolding status_of
status_of-append id [] row = ground arith
status_of-append id (r ∷ rows) row = ground (arith, status_of-append id rows row)

-- Remembering a message does not touch the orders.
pub orders-save_processed :
    (f : Fault) (id : Uuid) (now : Time) (message_id : Uuid) (event_type : String) (payload : Body)
    (s : OrderDb)
    → (save_processed f id now message_id event_type payload s).1.orders ≡ s.orders
unfolding save_processed statement insert_unique
orders-save_processed f id now message_id event_type payload s = ground arith
