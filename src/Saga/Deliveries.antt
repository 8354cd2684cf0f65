-- ===== src/Saga/Deliveries.antt =====
-- The deliveries of the system's steps: which message a queue brings, and what it does.
use go_commerce_microservice.Prelude.{
  ℕ, ◌≡◌, refl, sym, ◌∙◌, String, List, arith, Option-cases, ◌⊎◌, inl, inr,
}
use mathlib.Core.Path.{subst}
use go_commerce_microservice.External.{Uuid, UuidText, FloatOps}
use go_commerce_microservice.Order.Input.{Rules}
use go_commerce_microservice.Json.{Body}
use go_commerce_microservice.Messaging.Delivery.{Table, Properties}
use go_commerce_microservice.Messaging.Publisher.{
  Sent, Link, order_event_routing_key, inventory_event_routing_key,
}
use go_commerce_microservice.Messaging.Retry.{RetryPolicy}
use go_commerce_microservice.Order.Domain.{confirmed, failed}
use go_commerce_microservice.Order.Schema.{OrderDb}
use go_commerce_microservice.Order.Consumer as OrderConsumer
use go_commerce_microservice.Inventory.Schema.{InventoryDb, ReserveStockItem}
use go_commerce_microservice.Inventory.Stock.{IsKeyed}
use go_commerce_microservice.Inventory.Answer.{Request}
use go_commerce_microservice.Inventory.Consumer as StockConsumer
use go_commerce_microservice.Saga.Broker.{IsGenuine}
use go_commerce_microservice.Saga.System.{
  nth_sent, bound, delivery_of, picked, deliver_request, deliver_reserved, deliver_not_reserved,
}
use go_commerce_microservice.Saga.Agreement.{Says, OrderSide, StockSide, IsAnswer, lines_of}
use go_commerce_microservice.Saga.Settled.{picked-IsGenuine}
use go_commerce_microservice.Saga.Answered.{IsAnswered, confirm-IsAnswered, reject-IsAnswered}
use go_commerce_microservice.Saga.Replies.{IsReply, reserve-IsReply}
use go_commerce_microservice.Saga.Stock.{Asked, request_delivery}

-- A request is served, for an order that has asked.
pub record IsServed (u : UuidText) (exchange : String) (o : OrderDb) (i i' : InventoryDb)
    : Type 0 where
  pub id : Uuid
  pub event_id : Uuid
  pub lines : List ReserveStockItem
  pub asking : Asked u o id event_id lines
  pub reply : IsReply u exchange id event_id lines i i'

module _ (r : Rules) (u : UuidText) (fl : FloatOps) (exchange : String) (o : OrderDb)
    (i : InventoryDb) (l : Link) (n : ℕ) (headers : Table) (properties : Properties) where
  served :
      (t : StockConsumer.Turn) (m : Sent)
      → OrderSide u exchange o l
      → IsKeyed i.inventory
      → IsGenuine order_event_routing_key exchange (Says o.outbox) m
      → ((StockConsumer.handle_message u t (delivery_of m headers properties) i).1 ≡ i)
        ⊎ IsServed u exchange o i
            (StockConsumer.handle_message u t (delivery_of m headers properties) i).1
  served t m side keyed g =
      let x = side.requests g.id g.event_type m.payload g.event in
      let d = delivery_of m headers properties in
      let q : Request = record {
        faults = t.faults;
        draws = t.draws;
        message_id = x.event_id;
        order_id = x.order.id;
        items = lines_of x.order;
        payload = m.payload;
      } in
      let calls = request_delivery u t d x.event_id x.order i x.ints x.written in
      let asking : Asked u o x.order.id x.event_id (lines_of x.order) = record {
        order = x.order;
        same_id = refl;
        same_lines = refl;
        asked = ground (arith, g.event, x.same_id, x.typed, x.written);
        ints = x.ints;
      } in
      elim (reserve-IsReply u exchange q i keyed) [
        | inl same ↦ inl (calls ∙ same)
        | inr reply ↦ inr (record {
          id = x.order.id;
          event_id = x.event_id;
          lines = lines_of x.order;
          asking = asking;
          reply =
              subst (IsReply u exchange x.order.id x.event_id (lines_of x.order) i) (sym calls)
                reply;
        })
      ]

  -- A step that delivers a request changes nothing, or serves one.
  pub reserve_step :
      (t : StockConsumer.Turn)
      → OrderSide u exchange o l
      → IsKeyed i.inventory
      → let i' =
          deliver_request r u fl exchange t
            (picked r u fl exchange "order.created" n headers properties l)
            i in
        (i' ≡ i) ⊎ IsServed u exchange o i i'
  unfolding deliver_request
  reserve_step t side keyed = elim (Option-cases (bound "order.created" (nth_sent n l.stored))) [
    | inl nothing ↦ inl (rw (nothing, deliver_request) refl)
    | inr (m, found) ↦
        let g =
          (picked-IsGenuine order_event_routing_key exchange (Says o.outbox) "order.created" n
            l.stored m side.sent found).0 in
        rw (found, deliver_request) (served t m side keyed g)
  ]

  module _ (p : RetryPolicy) (t : OrderConsumer.Turn) (side : StockSide u exchange i l)
      (answers : (id : Uuid) (e : String) (b : Body)
        → Says i.outbox id e b
        → IsAnswer u exchange o i id e b) where
    -- A step that delivers an answer changes nothing, or settles the order that is answered.
    pub confirm_step :
        let o' =
          deliver_reserved r u fl exchange p t
            (picked r u fl exchange "stock.reserved" n headers properties l)
            o in
        (o' ≡ o) ⊎ IsAnswered confirmed "StockReserved" i o o'
    unfolding deliver_reserved
    confirm_step = elim (Option-cases (bound "stock.reserved" (nth_sent n l.stored))) [
      | inl nothing ↦ inl (rw (nothing, deliver_reserved) refl)
      | inr (m, found) ↦
          let (g, key) =
            picked-IsGenuine inventory_event_routing_key exchange (Says i.outbox) "stock.reserved" n
              l.stored m side.sent found in
          inr (
            rw (found, deliver_reserved)
              (confirm-IsAnswered u exchange p t o i m headers properties answers g key))
    ]

    pub reject_step :
        let o' =
          deliver_not_reserved r u fl exchange p t
            (picked r u fl exchange "stock.notreserved" n headers properties l)
            o in
        (o' ≡ o) ⊎ IsAnswered failed "StockReservationFailed" i o o'
    unfolding deliver_not_reserved
    reject_step = elim (Option-cases (bound "stock.notreserved" (nth_sent n l.stored))) [
      | inl nothing ↦ inl (rw (nothing, deliver_not_reserved) refl)
      | inr (m, found) ↦
          let (g, key) =
            picked-IsGenuine inventory_event_routing_key exchange (Says i.outbox)
              "stock.notreserved" n l.stored m side.sent found in
          inr (
            rw (found, deliver_not_reserved)
              (reject-IsAnswered u exchange p t o i m headers properties answers g key))
    ]
