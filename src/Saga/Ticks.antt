-- ===== src/Saga/Ticks.antt =====
-- The ticks of the two workers, and what they keep of the agreement.
use go_commerce_microservice.Prelude.{◌≡◌, sym, ◌∙◌, String}
use go_commerce_microservice.External.{Uuid, UuidText}
use go_commerce_microservice.Json.{Body}
use go_commerce_microservice.Sql.{Result}
use go_commerce_microservice.Outbox.{Outbox}
use go_commerce_microservice.Messaging.Publisher.{
  Link, order_event_routing_key, inventory_event_routing_key,
}
use go_commerce_microservice.Order.Schema.{OrderDb}
use go_commerce_microservice.Inventory.Schema.{InventoryDb}
use go_commerce_microservice.Saga.Events.{event_of, event_of-process, Each, Each-process}
use go_commerce_microservice.Messaging.Worker.Stored.{rabbit_turn}
use go_commerce_microservice.Messaging.Worker.Rows.{All-map}
use go_commerce_microservice.Saga.Broker.{AreGenuine, AreGenuine-map, process-AreGenuine}
use go_commerce_microservice.Saga.System.{Tick, publish_tick}
use go_commerce_microservice.Saga.Agreement.{Says, OrderSide, StockSide}

module _ (event_routing_key : String → Result String) (exchange : String) (t : Tick)
    (table : Outbox) (l : Link) where
  abbrev pub after_tick : Outbox × Link
  after_tick = publish_tick event_routing_key exchange t (table, l)

  pub event_of-tick : (id : Uuid) → event_of id after_tick.0 ≡ event_of id table
  unfolding publish_tick
  event_of-tick id =
      event_of-process t.find_fault t.batch_size
        (λ i.
          rabbit_turn event_routing_key exchange (t.replies i) (t.marks i) (t.bumps i) (t.clock i))
        (table, l) id

  Says-later : (id : Uuid) (e : String) (b : Body) → Says table id e b → Says after_tick.0 id e b
  Says-later id e b h = event_of-tick id ∙ h

  pub first-tick : Each (Says table) table → Each (Says after_tick.0) after_tick.0
  unfolding publish_tick
  first-tick h =
      All-map (λ m. Says table m.aggregate_id m.event_type m.payload)
        (λ m. Says after_tick.0 m.aggregate_id m.event_type m.payload)
        (λ m p. Says-later m.aggregate_id m.event_type m.payload p) after_tick.0
        (Each-process (Says table) t.find_fault t.batch_size
          (λ i.
            rabbit_turn event_routing_key exchange (t.replies i) (t.marks i) (t.bumps i)
              (t.clock i))
          (table, l) h)

  pub sent-tick :
      Each (Says table) table
      → AreGenuine event_routing_key exchange (Says table) l
      → AreGenuine event_routing_key exchange (Says after_tick.0) after_tick.1
  unfolding publish_tick
  sent-tick first h =
      AreGenuine-map event_routing_key exchange (Says table) (Says after_tick.0) Says-later
        after_tick.1
        (process-AreGenuine event_routing_key exchange (Says table) t.replies t.marks t.bumps
          t.clock t.find_fault t.batch_size (table, l) first h)

module _ (u : UuidText) (exchange : String) (t : Tick) where
  pub tick-OrderSide :
      (o : OrderDb) (l : Link)
      → OrderSide u exchange o l
      → let out = after_tick order_event_routing_key exchange t o.outbox l in
        OrderSide u exchange (record o { outbox = out.0 }) out.1
  tick-OrderSide o l side =
      let same = event_of-tick order_event_routing_key exchange t o.outbox l in
      record {
        requests = λ id e b says. side.requests id e b (sym (same id) ∙ says);
        placed = λ id e b says. side.placed id e b (sym (same id) ∙ says);
        first = first-tick order_event_routing_key exchange t o.outbox l side.first;
        sent = sent-tick order_event_routing_key exchange t o.outbox l side.first side.sent;
      }

  pub tick-StockSide :
      (i : InventoryDb) (l : Link)
      → StockSide u exchange i l
      → let out = after_tick inventory_event_routing_key exchange t i.outbox l in
        StockSide u exchange (record i { outbox = out.0 }) out.1
  tick-StockSide i l side =
      let same = event_of-tick inventory_event_routing_key exchange t i.outbox l in
      record {
        keyed = side.keyed;
        first = first-tick inventory_event_routing_key exchange t i.outbox l side.first;
        sent = sent-tick inventory_event_routing_key exchange t i.outbox l side.first side.sent;
        silent = λ id gone p. side.silent id (sym (same id) ∙ gone) p;
      }
