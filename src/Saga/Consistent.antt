-- ===== src/Saga/Consistent.antt =====
-- Every step of the system keeps the agreement.
use go_commerce_microservice.Prelude.{◌≡◌, sym, ◌∙◌, none, String, inl, inr}
use go_commerce_microservice.External.{Uuid, UuidText, FloatOps}
use go_commerce_microservice.Json.{Body}
use go_commerce_microservice.Sql.{Result}
use go_commerce_microservice.Messaging.Publisher.{
  order_event_routing_key, inventory_event_routing_key,
}
use go_commerce_microservice.Order.Domain.{Order, confirmed, failed}
use go_commerce_microservice.Order.Input.{Rules, CreateOrderInput}
use go_commerce_microservice.Order.Repository.{Faults}
use go_commerce_microservice.Order.Schema.{OrderDb}
use go_commerce_microservice.Order.Service.{Draws, ordered, outbox_message}
use go_commerce_microservice.Order.Creation.{Outcome, recorded}
use go_commerce_microservice.Order.Status.{status_of}
use go_commerce_microservice.Inventory.Schema.{InventoryDb}
use go_commerce_microservice.Saga.System.{System, Tick}
use go_commerce_microservice.Saga.Agreement.{Says, IsAnswer, Agreement}
use go_commerce_microservice.Saga.Says.{Says-append}
use go_commerce_microservice.Saga.Orders.{HaveIntInputs, place-OrderSide, place-IsBacked}
use go_commerce_microservice.Saga.Ticks.{after_tick, event_of-tick, tick-OrderSide, tick-StockSide}
use go_commerce_microservice.Saga.Settled.{settled-OrderSide, settled-IsAnswer, settled-IsBacked}
use go_commerce_microservice.Saga.Answered.{IsAnswered}
use go_commerce_microservice.Saga.Stock.{reply-StockSide, reply-IsAnswer, reply-IsBacked}
use go_commerce_microservice.Saga.Deliveries.{IsServed}

module _ (u : UuidText) (exchange : String) where
  -- The order service has asked at least what it asked before.
  asked_more :
      (o o' : OrderDb) (i : InventoryDb) (id : Uuid) (e : String) (b : Body)
      → ((k : Uuid) (x : String) (y : Body) → Says o.outbox k x y → Says o'.outbox k x y)
      → IsAnswer u exchange o i id e b
      → IsAnswer u exchange o' i id e b
  asked_more o o' i id e b more a = record {
    order = a.order;
    event_id = a.event_id;
    same_id = a.same_id;
    asked = more id _ _ a.asked;
    known = a.known;
    ints = a.ints;
    outcome = a.outcome;
  }

  module _ (s : System) (h : Agreement u exchange s) where
    placed-Agreement :
        (fl : FloatOps) (d : Draws) (input : CreateOrderInput)
        → HaveIntInputs input.items
        → status_of (ordered fl d input).id s.orders.orders ≡ none
        → Agreement u exchange (record s {
          orders = recorded (ordered fl d input) (outbox_message u d (ordered fl d input)) s.orders;
        })
    placed-Agreement fl d input ints new =
        let m = outbox_message u d (ordered fl d input) in
        let o' = recorded (ordered fl d input) m s.orders in
        record {
          order_side =
              place-OrderSide u exchange fl d input s.orders s.order_link h.order_side new ints;
          stock_side = h.stock_side;
          answers = λ id e b says.
              asked_more s.orders o' s.stock id e b (Says-append s.orders.outbox m)
                (h.answers id e b says);
          if_confirmed =
              place-IsBacked u exchange fl d input s.orders s.order_link confirmed "StockReserved"
                s.stock (λ p. cc) h.if_confirmed;
          if_failed =
              place-IsBacked u exchange fl d input s.orders s.order_link failed
                "StockReservationFailed" s.stock (λ p. cc) h.if_failed;
        }

    pub recorded-Agreement :
        (r : Rules) (fl : FloatOps) (f : Faults) (d : Draws) (input : CreateOrderInput)
        (out : Result Order × OrderDb)
        → HaveIntInputs input.items
        → Outcome r u fl f d input s.orders out
        → Agreement u exchange (record s { orders = out.1 })
    recorded-Agreement r fl f d input out ints (Outcome.created good new) =
        placed-Agreement fl d input ints new
    recorded-Agreement r fl f d input out ints (Outcome.rejected bad) = h
    recorded-Agreement r fl f d input out ints (Outcome.unchanged good why) = h
    recorded-Agreement r fl f d input out ints (Outcome.in_doubt good c new) =
        placed-Agreement fl d input ints new

    pub orders_tick-Agreement :
        (t : Tick)
        → let out = after_tick order_event_routing_key exchange t s.orders.outbox s.order_link in
          Agreement u exchange
            (record s { orders = record s.orders { outbox = out.0 }; order_link = out.1 })
    orders_tick-Agreement t =
        let out = after_tick order_event_routing_key exchange t s.orders.outbox s.order_link in
        let o' : OrderDb = record s.orders { outbox = out.0 } in
        record {
          order_side = tick-OrderSide u exchange t s.orders s.order_link h.order_side;
          stock_side = h.stock_side;
          answers = λ id e b says.
              asked_more s.orders o' s.stock id e b
                (λ k x y asked.
                  event_of-tick order_event_routing_key exchange t s.orders.outbox s.order_link k
                  ∙ asked)
                (h.answers id e b says);
          if_confirmed = h.if_confirmed;
          if_failed = h.if_failed;
        }

    pub stock_tick-Agreement :
        (t : Tick)
        → let out = after_tick inventory_event_routing_key exchange t s.stock.outbox s.stock_link in
          Agreement u exchange
            (record s { stock = record s.stock { outbox = out.0 }; stock_link = out.1 })
    stock_tick-Agreement t =
        let same =
          event_of-tick inventory_event_routing_key exchange t s.stock.outbox s.stock_link in
        record {
          order_side = h.order_side;
          stock_side = tick-StockSide u exchange t s.stock s.stock_link h.stock_side;
          answers = λ id e b says.
              let a = h.answers id e b (sym (same id) ∙ says) in
              record {
                order = a.order;
                event_id = a.event_id;
                same_id = a.same_id;
                asked = a.asked;
                known = a.known;
                ints = a.ints;
                outcome = elim a.outcome [
                  | inl g ↦ inl (record {
                    answer_id = g.answer_id;
                    typed = g.typed;
                    written = g.written;
                    reserved = g.reserved;
                  })
                  | inr d ↦ inr (record {
                    answer_id = d.answer_id;
                    reason = d.reason;
                    typed = d.typed;
                    written = d.written;
                    reserved = d.reserved;
                  })
                ];
              };
          if_confirmed = λ id there. let (b, says) = h.if_confirmed id there in (b, same id ∙ says);
          if_failed = λ id there. let (b, says) = h.if_failed id there in (b, same id ∙ says);
        }

    pub served-Agreement :
        (i' : InventoryDb)
        → IsServed u exchange s.orders s.stock i'
        → Agreement u exchange (record s { stock = i' })
    served-Agreement i' v = record {
      order_side = h.order_side;
      stock_side =
          reply-StockSide u exchange s.orders s.stock i' s.stock_link v.id v.event_id v.lines
            v.reply h.stock_side h.answers v.asking;
      answers =
          reply-IsAnswer u exchange s.orders s.stock i' s.stock_link v.id v.event_id v.lines v.reply
            h.stock_side h.answers v.asking;
      if_confirmed =
          reply-IsBacked u exchange s.orders s.stock i' s.stock_link v.id v.event_id v.lines v.reply
            confirmed "StockReserved" h.if_confirmed;
      if_failed =
          reply-IsBacked u exchange s.orders s.stock i' s.stock_link v.id v.event_id v.lines v.reply
            failed "StockReservationFailed" h.if_failed;
    }

    pub confirmed-Agreement :
        (o' : OrderDb)
        → IsAnswered confirmed "StockReserved" s.stock s.orders o'
        → Agreement u exchange (record s { orders = o' })
    confirmed-Agreement o' v = record {
      order_side =
          settled-OrderSide u exchange confirmed v.order_id s.orders o' v.settlement s.order_link
            h.order_side;
      stock_side = h.stock_side;
      answers = λ id e b says.
          settled-IsAnswer u exchange confirmed v.order_id s.orders o' v.settlement s.stock id e b
            (h.answers id e b says);
      if_confirmed =
          settled-IsBacked u exchange confirmed v.order_id s.orders o' v.settlement s.stock
            confirmed "StockReserved" (λ p. v.says) h.if_confirmed;
      if_failed =
          settled-IsBacked u exchange confirmed v.order_id s.orders o' v.settlement s.stock failed
            "StockReservationFailed" (λ p. absurd cc) h.if_failed;
    }

    pub failed-Agreement :
        (o' : OrderDb)
        → IsAnswered failed "StockReservationFailed" s.stock s.orders o'
        → Agreement u exchange (record s { orders = o' })
    failed-Agreement o' v = record {
      order_side =
          settled-OrderSide u exchange failed v.order_id s.orders o' v.settlement s.order_link
            h.order_side;
      stock_side = h.stock_side;
      answers = λ id e b says.
          settled-IsAnswer u exchange failed v.order_id s.orders o' v.settlement s.stock id e b
            (h.answers id e b says);
      if_confirmed =
          settled-IsBacked u exchange failed v.order_id s.orders o' v.settlement s.stock confirmed
            "StockReserved" (λ p. absurd cc) h.if_confirmed;
      if_failed =
          settled-IsBacked u exchange failed v.order_id s.orders o' v.settlement s.stock failed
            "StockReservationFailed" (λ p. v.says) h.if_failed;
    }
