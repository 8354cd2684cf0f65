-- ===== src/Saga/Agreement.antt =====
-- What holds of the two services and the broker between them.
use go_commerce_microservice.Prelude.{◌≡◌, ◌≢◌, true, none, some, String, List, map, ◌⊎◌}
use go_commerce_microservice.Prelude.Int.{pos}
use go_commerce_microservice.External.{Uuid, UuidText}
use go_commerce_microservice.Json.{Body}
use go_commerce_microservice.Outbox.{Outbox}
use go_commerce_microservice.Messaging.Publisher.{
  Link, order_event_routing_key, inventory_event_routing_key,
}
use go_commerce_microservice.Order.Domain.{Order, OrderStatus, confirmed, failed}
use go_commerce_microservice.Order.Schema.{OrderDb}
use go_commerce_microservice.Order.Service.{event_payload}
use go_commerce_microservice.Order.Status.{status_of}
use go_commerce_microservice.Inventory.Schema.{InventoryDb, ReserveStockItem}
use go_commerce_microservice.Inventory.Repository.{build_stock_event_payload}
use go_commerce_microservice.Inventory.Stock.{IsKeyed, requested, held_for}
use go_commerce_microservice.Inventory.Answer.{remembers}
use go_commerce_microservice.Saga.{HaveInts, line_of}
use go_commerce_microservice.Saga.Events.{event_of, Each}
use go_commerce_microservice.Saga.Broker.{AreGenuine}
use go_commerce_microservice.Saga.System.{System}

abbrev pub lines_of : Order → List ReserveStockItem
lines_of order = map line_of order.items

-- The outbox holds this event of this aggregate.
abbrev pub Says : Outbox → Uuid → String → Body → Type 0
Says table id event_type payload = event_of id table ≡ some (event_type, payload)

module _ (u : UuidText) (exchange : String) where
  -- The event of an order, as `CreateOrder` writes it.
  pub record IsRequest (id : Uuid) (event_type : String) (payload : Body) : Type 0 where
    pub order : Order
    pub event_id : Uuid
    pub same_id : order.id ≡ id
    pub typed : event_type ≡ "ReserveStockRequested"
    pub written : payload ≡ event_payload u event_id order
    pub ints : HaveInts (lines_of order)

  pub record OrderSide (o : OrderDb) (l : Link) : Type 0 where
    pub requests : (id : Uuid) (e : String) (b : Body) → Says o.outbox id e b → IsRequest id e b
    pub placed :
        (id : Uuid) (e : String) (b : Body) → Says o.outbox id e b → status_of id o.orders ≢ none
    pub first : Each (Says o.outbox) o.outbox
    pub sent : AreGenuine order_event_routing_key exchange (Says o.outbox) l

  pub record StockSide (i : InventoryDb) (l : Link) : Type 0 where
    pub keyed : IsKeyed i.inventory
    pub first : Each (Says i.outbox) i.outbox
    pub sent : AreGenuine inventory_event_routing_key exchange (Says i.outbox) l
    pub silent :
        (id : Uuid)
        → event_of id i.outbox ≡ none
        → (p : Uuid) → held_for id p i.reservations ≡ pos 0

  -- The stock of every line of an order is reserved for it, and the answer says so.
  pub record IsGranted (i : InventoryDb) (id : Uuid) (lines : List ReserveStockItem)
      (event_type : String) (payload : Body) : Type 0 where
    pub answer_id : Uuid
    pub typed : event_type ≡ "StockReserved"
    pub written : payload ≡ build_stock_event_payload u answer_id id "" lines
    pub reserved : (p : Uuid) → held_for id p i.reservations ≡ requested p lines

  -- No stock is reserved for the order, and the answer says so.
  pub record IsDenied (i : InventoryDb) (id : Uuid) (lines : List ReserveStockItem)
      (event_type : String) (payload : Body) : Type 0 where
    pub answer_id : Uuid
    pub reason : String
    pub typed : event_type ≡ "StockReservationFailed"
    pub written : payload ≡ build_stock_event_payload u answer_id id reason lines
    pub reserved : (p : Uuid) → held_for id p i.reservations ≡ pos 0

  -- An answer belongs to the one request of its order, which the inbox knows.
  pub record IsAnswer (o : OrderDb) (i : InventoryDb) (id : Uuid) (event_type : String)
      (payload : Body) : Type 0 where
    pub order : Order
    pub event_id : Uuid
    pub same_id : order.id ≡ id
    pub asked : Says o.outbox id "ReserveStockRequested" (event_payload u event_id order)
    pub known : remembers event_id i ≡ true
    pub ints : HaveInts (lines_of order)
    pub outcome :
        IsGranted i id (lines_of order) event_type payload
        ⊎ IsDenied i id (lines_of order) event_type payload

  -- A settled order has the answer that settles it.
  abbrev pub IsBacked : OrderStatus → String → OrderDb → InventoryDb → Type 0
  IsBacked st event_type o i =
      (id : Uuid) → status_of id o.orders ≡ some st → (b : Body) × Says i.outbox id event_type b

  pub record Agreement (s : System) : Type 0 where
    pub order_side : OrderSide s.orders s.order_link
    pub stock_side : StockSide s.stock s.stock_link
    pub answers :
        (id : Uuid) (e : String) (b : Body)
        → Says s.stock.outbox id e b
        → IsAnswer s.orders s.stock id e b
    pub if_confirmed : IsBacked confirmed "StockReserved" s.orders s.stock
    pub if_failed : IsBacked failed "StockReservationFailed" s.orders s.stock
