-- ===== src/Order/Consumer.antt =====
-- services/order-service/internal/adapter/messaging/stock_reserved_consumer.go and
-- stock_not_reserved_consumer.go: what a delivery does to the database and to its message.
pub mod Acked
use go_commerce_microservice.Prelude.{
  ℕ, Bool, true, false, Option, none, some, String, List, [], ◌∷◌,
}
use go_commerce_microservice.Error.{Error}
use go_commerce_microservice.External.{Uuid, Time, UuidText}
use go_commerce_microservice.Json.{Body, Fields}
use go_commerce_microservice.Sql.{Result, ok, err, Call}
use go_commerce_microservice.Messaging.Delivery.{Delivery, Publishing, Settlement, acked, open_}
use go_commerce_microservice.Messaging.Events.{
  Event, event_of_fields, not_reserved_of_fields, unmarshal,
}
use go_commerce_microservice.Messaging.Retry.{RetryPolicy, Wire, dead_letter, retry}
use go_commerce_microservice.Order.Schema.{OrderDb}
use go_commerce_microservice.Order.Repository.{Faults}
use go_commerce_microservice.Order.Service.{handle_confirm_order, handle_reject_order}

-- What the environment does to one delivery.
pub record Turn : Type 0 where
  pub faults : Faults
  pub wire : Wire
  pub now : Time
  pub inbox_id : Uuid

-- What was sent on, how the delivery is settled, and the tables.
pub record Handled : Type 0 where
  pub sent : Option Publishing
  pub settlement : Settlement
  pub db : OrderDb

-- `delivery.Ack(false)`
unfoldable pub acknowledge : Wire → Settlement
acknowledge w = elim w.ack_error [ none ↦ acked | some e ↦ open_ ]

unfoldable pub give_up : RetryPolicy → Turn → Delivery → String → OrderDb → Handled
give_up p t d reason db =
    let sent = dead_letter p t.wire d reason in
    record { sent = some sent.0; settlement = sent.2; db = db }

unfoldable pub after_handling :
    RetryPolicy → Turn → Delivery → Result (Unit {0}) × OrderDb → Handled
unfolding acknowledge
after_handling p t d (ok u, db) = record { sent = none; settlement = acknowledge t.wire; db = db }
after_handling p t d (err e, db) =
    let sent = (retry p t.wire d "processing failed").1 in
    record { sent = some sent.0; settlement = sent.2; db = db }

-- A handler of the order service: the order's and the message's identifiers and the payload.
abbrev pub Handler : Type 0
Handler = Uuid → Uuid → Body → Call OrderDb (Unit {0})

unfoldable pub with_order_id :
    RetryPolicy → Handler → Turn → Delivery → Uuid → Option Uuid → OrderDb → Handled
unfolding give_up after_handling
with_order_id p handler t d message_id none db = give_up p t d "invalid order_id" db
with_order_id p handler t d message_id (some order_id) db =
    after_handling p t d (handler order_id message_id d.body db)

unfoldable pub with_message_id :
    UuidText → RetryPolicy → Handler → Turn → Delivery → Event → Option Uuid → OrderDb → Handled
unfolding give_up with_order_id
with_message_id u p handler t d event none db = give_up p t d "invalid message_id" db
with_message_id u p handler t d event (some message_id) db =
    with_order_id p handler t d message_id (u.parse event.order_id) db

unfoldable pub with_event :
    UuidText → RetryPolicy → Handler → Turn → Delivery → Option Event → OrderDb → Handled
unfolding give_up with_message_id
with_event u p handler t d none db = give_up p t d "invalid JSON" db
with_event u p handler t d (some event) db =
    with_message_id u p handler t d event (u.parse event.message_id) db

-- What the two `handleMessage` methods share.
unfoldable pub handle_delivery :
    (Fields → Option Event) → Handler → UuidText → RetryPolicy → Turn → Delivery → OrderDb → Handled
unfolding with_event
handle_delivery fields handler u p t d db = with_event u p handler t d (unmarshal fields d.body) db

unfoldable pub handle_stock_reserved : UuidText → RetryPolicy → Turn → Delivery → OrderDb → Handled
unfolding handle_delivery
handle_stock_reserved u p t d =
    handle_delivery event_of_fields
      (λ order_id message_id payload.
        handle_confirm_order t.faults t.now t.inbox_id order_id message_id payload)
      u p t d

unfoldable pub handle_stock_not_reserved :
    UuidText → RetryPolicy → Turn → Delivery → OrderDb → Handled
unfolding handle_delivery
handle_stock_not_reserved u p t d =
    handle_delivery not_reserved_of_fields
      (λ order_id message_id payload.
        handle_reject_order t.faults t.now t.inbox_id order_id message_id payload)
      u p t d
