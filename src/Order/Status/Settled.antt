-- ===== src/Order/Status/Settled.antt =====
-- An order's status under any interleaving of the writes of the order service.
use go_commerce_microservice.Prelude.{
  ◌≡◌, refl, Bool, true, false, Option, none, some, List, [], ◌∷◌, ◌++◌, ◌==◌, if◌then◌else◌,
  String, Bool-cases, inl, inr, ◌≢◌,
}
use go_commerce_microservice.External.{Uuid, Time}
use go_commerce_microservice.Json.{Body}
use go_commerce_microservice.Sql.{Result, Fault, refused, statement, Atomic, transaction-Atomic}
use go_commerce_microservice.Outbox.{OutboxMessage}
use go_commerce_microservice.Order.Domain.{Order, OrderStatus, pending, confirmed, failed}
use go_commerce_microservice.Order.Schema.{OrderDataModel, OrderDb, to_order_data_model}
use go_commerce_microservice.Order.Repository.{
  Faults, create_body, create_with_outbox, settle_order, confirm_order, reject_order,
  save_processed,
}
use go_commerce_microservice.Order.Creation.{create_body_lem}
use go_commerce_microservice.Order.Status.{
  status_of, settle, status_of-update, orders-save_processed, status_of-append,
}

-- One write of the order service to its database. The goroutines of the gRPC server and of the
-- two consumers interleave at these.
pub data Write : Type 0 where
  create : Faults → Order → OutboxMessage → Write
  confirm reject : Fault → Time → Uuid → Write
  remember : Fault → Uuid → Time → Uuid → String → Body → Write

unfoldable pub perform : Write → OrderDb → OrderDb
perform (create f order message) s = (create_with_outbox f order message s).1
perform (confirm f now id) s = (confirm_order f now id s).1
perform (reject f now id) s = (reject_order f now id s).1
perform (remember f id now message_id event_type payload) s =
    (save_processed f id now message_id event_type payload s).1

unfoldable pub perform_all : List Write → OrderDb → OrderDb
perform_all [] s = s
perform_all (w ∷ ws) s = perform_all ws (perform w s)

infix 40 ◌⟶◌ ◌⟶*◌
-- The diagram: an order appears PENDING and is then confirmed or failed, once.
pub data ◌⟶◌ : Option OrderStatus → Option OrderStatus → Type 0 where
  placed : none ⟶ some pending
  confirmed_by_stock : some pending ⟶ some confirmed
  failed_by_stock : some pending ⟶ some failed

pub data ◌⟶*◌ : Option OrderStatus → Option OrderStatus → Type 0 where
  stay : {s : Option OrderStatus} → s ⟶* s
  after : {s t u : Option OrderStatus} → s ⟶ t → t ⟶* u → s ⟶* u

-- Writes that create an order create it pending, as `NewOrder` does.
abbrev pub IsPlaced : Write → Type 0
IsPlaced (create f order message) = order.status ≡ pending
IsPlaced _ = Unit {0}

abbrev pub ArePlaced : List Write → Type 0
ArePlaced [] = Unit {0}
ArePlaced (w ∷ ws) = IsPlaced w × ArePlaced ws

⟶*-trans : {s t u : Option OrderStatus} → s ⟶* t → t ⟶* u → s ⟶* u
⟶*-trans stay q = q
⟶*-trans (after e p) q = after e (⟶*-trans p q)

⟶*_of_eq : {s t : Option OrderStatus} → s ≡ t → s ⟶* t
⟶*_of_eq {s} e = rw (← e) (stay {s = s})

settle-⟶* : (to : OrderStatus) (o : Option OrderStatus) → to ≢ pending → o ⟶* settle to o
settle-⟶* to none h = stay
settle-⟶* OrderStatus.pending (some OrderStatus.pending) h = stay
settle-⟶* OrderStatus.confirmed (some OrderStatus.pending) h = after confirmed_by_stock stay
settle-⟶* OrderStatus.failed (some OrderStatus.pending) h = after failed_by_stock stay
settle-⟶* to (some OrderStatus.confirmed) h = stay
settle-⟶* to (some OrderStatus.failed) h = stay

status_of-settle_order :
    (to : OrderStatus) (f : Fault) (now : Time) (id other : Uuid) (s : OrderDb)
    → to ≢ pending
    → status_of other s.orders ⟶* status_of other (settle_order to f now id s).1.orders
unfolding settle_order statement
status_of-settle_order to (refused e) now id other s h = stay
status_of-settle_order to _ now id other s h =
    rw status_of-update (elim (Bool-cases (id == other)) [
      | inl same ↦ rw same (settle-⟶* to _ h)
      | inr differ ↦ rw differ stay
    ])

append_pending :
    (id : Uuid) (rows : List OrderDataModel) (row : OrderDataModel)
    → row.status ≡ pending
    → status_of id rows ⟶* status_of id (rows ++ row ∷ [])
append_pending id rows row p = rw status_of-append (go (status_of id rows))
  where
    go :
        (o : Option OrderStatus)
        → o
          ⟶* (elim o [ none ↦ if row.id == id then some row.status else none | some st ↦ some st ])
    go none = elim (Bool-cases (row.id == id)) [
      | inl same ↦ rw (same, p) (after placed stay)
      | inr differ ↦ rw differ stay
    ]
    go (some st) = stay

status_of-create :
    (f : Faults) (order : Order) (message : OutboxMessage) (id : Uuid) (s : OrderDb)
    (out : Result (Unit {0}) × OrderDb)
    → order.status ≡ pending
    → Atomic f.commit (create_body f order message) s out
    → status_of id s.orders ⟶* status_of id out.1.orders
unfolding to_order_data_model
status_of-create f order message id s out p (Atomic.committed h) =
    rw (create_body_lem f order message s h)
      (append_pending id s.orders (to_order_data_model order) p)
status_of-create f order message id s out p (Atomic.undone why) = stay
status_of-create f order message id s out p (Atomic.in_doubt c h) =
    rw (create_body_lem f order message s h)
      (append_pending id s.orders (to_order_data_model order) p)

perform-⟶* :
    (w : Write) (id : Uuid) (s : OrderDb)
    → IsPlaced w
    → status_of id s.orders ⟶* status_of id (perform w s).orders
unfolding perform create_with_outbox confirm_order reject_order
perform-⟶* (create f order message) id s p =
    status_of-create f order message id s (create_with_outbox f order message s) p
      (transaction-Atomic f.commit (create_body f order message) s)
perform-⟶* (confirm f now order_id) id s p =
    status_of-settle_order confirmed f now order_id id s (λ e. cc)
perform-⟶* (reject f now order_id) id s p =
    status_of-settle_order failed f now order_id id s (λ e. cc)
perform-⟶* (remember f row_id now message_id event_type payload) id s p =
    rw (orders-save_processed f row_id now message_id event_type payload s) stay

-- Whatever writes the handlers make, in any order and with any faults, the status of an order
-- moves along the diagram: it appears PENDING, and becomes CONFIRMED or FAILED at most once.
pub perform_all-⟶* :
    (ws : List Write) (id : Uuid) (s : OrderDb)
    → ArePlaced ws
    → status_of id s.orders ⟶* status_of id (perform_all ws s).orders
unfolding perform_all
perform_all-⟶* [] id s p = stay
perform_all-⟶* (w ∷ ws) id s p =
    ⟶*-trans (perform-⟶* w id s p.0) (perform_all-⟶* ws id (perform w s) p.1)

abbrev pub is_settled : Option OrderStatus → Bool
is_settled (some OrderStatus.confirmed) = true
is_settled (some OrderStatus.failed) = true
is_settled _ = false

⟶*-settled : {s t : Option OrderStatus} → s ⟶* t → is_settled s ≡ true → t ≡ s
⟶*-settled stay h = refl
⟶*-settled (after placed p) h = cc
⟶*-settled (after confirmed_by_stock p) h = cc
⟶*-settled (after failed_by_stock p) h = cc

-- A CONFIRMED or FAILED order keeps its status for ever: late, repeated and contradicting stock
-- events, from either consumer, do not change it.
pub settled_stays :
    (ws : List Write) (id : Uuid) (s : OrderDb)
    → ArePlaced ws
    → is_settled (status_of id s.orders) ≡ true
    → status_of id (perform_all ws s).orders ≡ status_of id s.orders
settled_stays ws id s p h = ⟶*-settled (perform_all-⟶* ws id s p) h
