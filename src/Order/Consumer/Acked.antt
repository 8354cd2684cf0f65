-- ===== src/Order/Consumer/Acked.antt =====
-- The two stock consumers: what an acknowledged delivery tells.
use go_commerce_microservice.Prelude.{
  ◌≡◌, refl, Bool, true, Option, none, some, String, ◌⊎◌, inl, inr,
}
use go_commerce_microservice.External.{Uuid, UuidText}
use go_commerce_microservice.Json.{Body}
use go_commerce_microservice.Sql.{Result, ok, err}
use go_commerce_microservice.Messaging.Delivery.{Delivery, Publishing, confirmed, acked}
use go_commerce_microservice.Messaging.Events.{
  Event, event_of_fields, not_reserved_of_fields, unmarshal,
}
use go_commerce_microservice.Messaging.Retry.{RetryPolicy, Wire, dead_letter, retry}
use go_commerce_microservice.Messaging.Retry.Safety.{
  acked_after_confirm, original_kept, dead_letter-Ending, IsCopy, dead_letter-IsCopy, retry-IsCopy,
}
use go_commerce_microservice.Order.Schema.{OrderDb}
use go_commerce_microservice.Order.Repository.{confirm_order, reject_order}
use go_commerce_microservice.Order.Service.{handle_confirm_order, handle_reject_order}
use go_commerce_microservice.Order.Handling.{remembers, handle_once-ok}
use go_commerce_microservice.Order.Consumer.{
  Turn, Handler, Handled, give_up, after_handling, with_event, with_message_id, with_order_id,
  handle_delivery, handle_stock_reserved, handle_stock_not_reserved,
}

-- A copy of the delivery was sent to the retry queue, or to the dead-letter exchange and queue, and
-- the broker has confirmed it.
pub record IsHandedOn (p : RetryPolicy) (d : Delivery) (w : Wire) (h : Handled) : Type 0 where
  pub copy : Publishing
  pub sent : h.sent ≡ some copy
  pub copies : IsCopy p d copy
  pub routed : Bool
  pub confirms : w.reply ≡ confirmed routed

-- The event's message is in the inbox, or a copy of the delivery is handed on.
pub record IsKept (u : UuidText) (event : Option Event) (p : RetryPolicy) (d : Delivery) (w : Wire)
    (h : Handled) : Type 0 where
  pub kept :
      ((e : Event) × (m : Uuid) × (event ≡ some e)
        × (u.parse e.message_id ≡ some m)
        × (remembers m h.db ≡ true))
      ⊎ IsHandedOn p d w h

given_up :
    (p : RetryPolicy) (t : Turn) (d : Delivery) (reason : String) (db : OrderDb)
    → (give_up p t d reason db).settlement ≡ acked
    → IsHandedOn p d t.wire (give_up p t d reason db)
unfolding give_up
given_up p t d reason db h =
    let (routed, confirms) = acked_after_confirm (dead_letter-Ending p t.wire d reason) h in
    record {
      copy = (dead_letter p t.wire d reason).0;
      sent = refl;
      copies = dead_letter-IsCopy p t.wire d reason;
      routed = routed;
      confirms = confirms;
    }

-- A handler that returns no error has remembered the message.
abbrev Remembers : Handler → Type 0
Remembers handler =
    (order_id m : Uuid) (db : OrderDb) (payload : Body)
    → (handler order_id m payload db).0 ≡ ok tt
    → remembers m (handler order_id m payload db).1 ≡ true

after_handling-kept :
    (p : RetryPolicy) (t : Turn) (d : Delivery) (m : Uuid) (r : Result (Unit {0})) (db : OrderDb)
    → (r ≡ ok tt → remembers m db ≡ true)
    → (after_handling p t d (r, db)).settlement ≡ acked
    → (remembers m (after_handling p t d (r, db)).db ≡ true)
      ⊎ IsHandedOn p d t.wire (after_handling p t d (r, db))
unfolding after_handling
after_handling-kept p t d m (ok tt) db known h = inl (known refl)
after_handling-kept p t d m (err e) db known h =
    let (routed, confirms) = acked_after_confirm (original_kept p t.wire d "processing failed") h in
    inr (record {
      copy = (retry p t.wire d "processing failed").1.0;
      sent = refl;
      copies = retry-IsCopy p t.wire d "processing failed";
      routed = routed;
      confirms = confirms;
    })

with_order_id-IsKept :
    (u : UuidText) (p : RetryPolicy) (handler : Handler) (t : Turn) (d : Delivery) (e : Event)
    (m : Uuid) (parsed : Option Uuid) (db : OrderDb)
    → Remembers handler
    → u.parse e.message_id ≡ some m
    → (with_order_id p handler t d m parsed db).settlement ≡ acked
    → IsKept u (some e) p d t.wire (with_order_id p handler t d m parsed db)
unfolding with_order_id
with_order_id-IsKept u p handler t d e m none db known read h = record {
  kept = inr (given_up p t d "invalid order_id" db h);
}
with_order_id-IsKept u p handler t d e m (some order_id) db known read h =
    let (r, after) = handler order_id m d.body db in
    elim (after_handling-kept p t d m r after (known order_id m db d.body) h) [
      | inl done ↦ record { kept = inl (e, m, refl, read, done) }
      | inr copy ↦ record { kept = inr copy }
    ]

with_message_id-IsKept :
    (u : UuidText) (p : RetryPolicy) (handler : Handler) (t : Turn) (d : Delivery) (e : Event)
    (parsed : Option Uuid) (db : OrderDb)
    → Remembers handler
    → u.parse e.message_id ≡ parsed
    → (with_message_id u p handler t d e parsed db).settlement ≡ acked
    → IsKept u (some e) p d t.wire (with_message_id u p handler t d e parsed db)
unfolding with_message_id
with_message_id-IsKept u p handler t d e none db known read h = record {
  kept = inr (given_up p t d "invalid message_id" db h);
}
with_message_id-IsKept u p handler t d e (some m) db known read h =
    with_order_id-IsKept u p handler t d e m (u.parse e.order_id) db known read h

with_event-IsKept :
    (u : UuidText) (p : RetryPolicy) (handler : Handler) (t : Turn) (d : Delivery)
    (event : Option Event) (db : OrderDb)
    → Remembers handler
    → (with_event u p handler t d event db).settlement ≡ acked
    → IsKept u event p d t.wire (with_event u p handler t d event db)
unfolding with_event
with_event-IsKept u p handler t d none db known h = record {
  kept = inr (given_up p t d "invalid JSON" db h);
}
with_event-IsKept u p handler t d (some e) db known h =
    with_message_id-IsKept u p handler t d e (u.parse e.message_id) db known refl h

confirm-Remembers :
    (t : Turn)
    → Remembers (λ order_id message_id payload.
      handle_confirm_order t.faults t.now t.inbox_id order_id message_id payload)
unfolding handle_confirm_order
confirm-Remembers t order_id m db payload h =
    handle_once-ok t.faults t.now t.inbox_id m "StockReserved" payload
      (confirm_order t.faults.update_order t.now order_id) db h

reject-Remembers :
    (t : Turn)
    → Remembers (λ order_id message_id payload.
      handle_reject_order t.faults t.now t.inbox_id order_id message_id payload)
unfolding handle_reject_order
reject-Remembers t order_id m db payload h =
    handle_once-ok t.faults t.now t.inbox_id m "StockReservationFailed" payload
      (reject_order t.faults.update_order t.now order_id) db h

-- A `StockReserved` delivery, with any body, is acknowledged only if its message is in the inbox
-- after the handling, under the identifier that its body names, or a copy of it, with its body and
-- properties, was sent to the retry queue or to the dead-letter exchange and queue, and the broker
-- has confirmed that copy.
pub reserved_acked_only_if_IsKept :
    (u : UuidText) (p : RetryPolicy) (t : Turn) (d : Delivery) (db : OrderDb)
    → (handle_stock_reserved u p t d db).settlement ≡ acked
    → IsKept u (unmarshal event_of_fields d.body) p d t.wire (handle_stock_reserved u p t d db)
unfolding handle_stock_reserved handle_delivery
reserved_acked_only_if_IsKept u p t d db =
    with_event-IsKept u p
      (λ order_id message_id payload.
        handle_confirm_order t.faults t.now t.inbox_id order_id message_id payload)
      t d (unmarshal event_of_fields d.body) db (confirm-Remembers t)

-- The same holds of a `StockReservationFailed` delivery: it is acknowledged only if its message is
-- in the inbox after the handling, or a copy of it, with its body and properties, was sent to the
-- retry queue or to the dead-letter exchange and queue, and the broker has confirmed that copy.
pub not_reserved_acked_only_if_IsKept :
    (u : UuidText) (p : RetryPolicy) (t : Turn) (d : Delivery) (db : OrderDb)
    → (handle_stock_not_reserved u p t d db).settlement ≡ acked
    → IsKept u
        (unmarshal not_reserved_of_fields d.body)
        p
        d
        t.wire
        (handle_stock_not_reserved u p t d db)
unfolding handle_stock_not_reserved handle_delivery
not_reserved_acked_only_if_IsKept u p t d db =
    with_event-IsKept u p
      (λ order_id message_id payload.
        handle_reject_order t.faults t.now t.inbox_id order_id message_id payload)
      t d (unmarshal not_reserved_of_fields d.body) db (reject-Remembers t)
