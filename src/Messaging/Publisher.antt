-- ===== src/Messaging/Publisher.antt =====
-- services/order-service/internal/adapter/messaging/rabbitmq_publisher.go: a publishing that must
-- be confirmed and routed. The inventory and catalog-write services carry the same file but for
-- the event's routing key.
pub mod Certain
use Prim.Native.String.{String, ◌++◌ as concat}
use text.Mathlib.Text.{◌==◌ as str_eq}
use go_commerce_microservice.Prelude.{
  ℕ, ◌≡◌, Bool, true, false, Option, none, some, List, [], ◌∷◌, ◌++◌, if◌then◌else◌,
}
use go_commerce_microservice.Error.{Error}
use go_commerce_microservice.Json.{Body}
use go_commerce_microservice.Sql.{Result, ok, err}
use go_commerce_microservice.Messaging.Delivery.{
  BrokerReply, not_sent, no_confirm, negative, confirmed,
}

-- The channel that `NotifyReturn` fills: open, with the routing keys of the returns that wait to be
-- received, the first first (one in the buffer, the others where the client blocks), or closed.
pub data Returns : Type 0 where
  waiting : List String → Returns
  closed : Returns

-- A message as the broker stores it when it is routed.
pub record Sent : Type 0 where
  pub exchange : String
  pub routing_key : String
  pub payload : Body

-- The publisher's returns, and the messages that the broker has stored in a queue.
pub record Link : Type 0 where
  pub returns : Returns
  pub stored : List Sent

-- `channel.ExchangeDeclare`, `channel.Confirm`: the first error is returned.
unfoldable pub new_publisher : Option Error → Option Error → Result Returns
new_publisher (some e) confirm = err e
new_publisher none (some e) = err e
new_publisher none none = ok (waiting [])

unfoldable pub order_event_routing_key : String → Result String
order_event_routing_key event_type =
    if str_eq event_type "ReserveStockRequested"
    then ok "order.created"
    else err (Error.message (concat "unsupported event type: " event_type))

unfoldable pub inventory_event_routing_key : String → Result String
inventory_event_routing_key event_type =
    if str_eq event_type "StockReserved"
    then ok "stock.reserved"
    else if str_eq event_type "StockReservationFailed"
    then ok "stock.notreserved"
    else err (Error.message (concat "unsupported event type: " event_type))

unfoldable pub catalog_event_routing_key : String → Result String
catalog_event_routing_key event_type =
    if str_eq event_type "ProductCreated"
    then ok "product.created"
    else err (Error.message (concat "unsupported event type: " event_type))

-- A return is delivered before the confirm that follows it.
unfoldable pub put_return : String → Returns → Returns
put_return key (waiting earlier) = waiting (earlier ++ key ∷ [])
put_return key closed = closed

store : Sent → Link → Link
store m l = record l { stored = m ∷ l.stored }

return_it : Sent → Link → Link
unfolding put_return
return_it m l = record l { returns = put_return m.routing_key l.returns }

-- What the broker's reply leaves behind. A message without a confirm may be stored or returned
-- all the same: its flag says whether it was routed.
unfoldable pub settled : BrokerReply → Sent → Link → Link
unfolding store return_it
settled (not_sent e) m l = l
settled (no_confirm e routed) m l = if routed then store m l else return_it m l
settled negative m l = l
settled (confirmed routed) m l = if routed then store m l else return_it m l

unfoldable pub receive : Returns → Link → Option Error × Link
receive (waiting []) l = (none, l)
receive (waiting (key ∷ later)) l = (
  some (Error.message (concat "RabbitMQ could not route message: " key)),
  record l { returns = waiting later },
)
receive closed l = (some (Error.message "RabbitMQ return notification channel closed"), l)

-- The `select` on the returns after an acknowledgement.
unfoldable pub await_return : Link → Option Error × Link
unfolding receive
await_return l = receive l.returns l

unfoldable pub after_reply : BrokerReply → Link → Option Error × Link
unfolding await_return
after_reply (not_sent e) l = (some e, l)
after_reply (no_confirm e routed) l = (some e, l)
after_reply negative l = (some (Error.message "RabbitMQ negatively acknowledged message"), l)
after_reply (confirmed routed) l = await_return l

unfoldable pub send : Result String → String → BrokerReply → Body → Link → Option Error × Link
unfolding settled after_reply
send (err e) exchange reply payload l = (some e, l)
send (ok key) exchange reply payload l =
    let m : Sent = record { exchange = exchange; routing_key = key; payload = payload } in
    after_reply reply (settled reply m l)

unfoldable pub publish :
    (String → Result String) → String → BrokerReply → String → Body → Link → Option Error × Link
unfolding send
publish event_routing_key exchange reply event_type payload l =
    send (event_routing_key event_type) exchange reply payload l
