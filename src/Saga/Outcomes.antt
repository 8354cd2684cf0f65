-- ===== src/Saga/Outcomes.antt =====
-- What an order's status says of the stock.
use go_commerce_microservice.Prelude.{
  ◌≡◌, refl, Option, none, some, String, List, ◌⊎◌, inl, inr, All, Option-cases,
}
use go_commerce_microservice.External.{Uuid, UuidText, FloatOps}
use go_commerce_microservice.Json.{Body}
use go_commerce_microservice.Order.Domain.{Order, OrderStatus}
use go_commerce_microservice.Order.Input.{Rules}
use go_commerce_microservice.Order.Service.{event_payload}
use go_commerce_microservice.Order.Status.{status_of}
use go_commerce_microservice.Inventory.Stock.{requested, held_for}
use go_commerce_microservice.Saga.Events.{event_of}
use go_commerce_microservice.Saga.System.{System, Step, run}
use go_commerce_microservice.Saga.Agreement.{Says, lines_of, IsAnswer, IsGranted, Agreement}
use go_commerce_microservice.Saga.Replies.{HasNothing}
use go_commerce_microservice.Saga.Settled.{apart}
use go_commerce_microservice.Saga.Steps.{HasInts, IsFresh, fresh_run-Agreement}

-- The reservations of the order are the pieces that its request asks for, product by product.
pub record HasAll (u : UuidText) (id : Uuid) (s : System) : Type 0 where
  pub order : Order
  pub event_id : Uuid
  pub same_id : order.id ≡ id
  pub asked : Says s.orders.outbox id "ReserveStockRequested" (event_payload u event_id order)
  pub reserved : (p : Uuid) → held_for id p s.stock.reservations ≡ requested p (lines_of order)

-- A confirmed order has all of its stock; a failed or unknown one has none; a pending one either.
abbrev pub HasStockFor : UuidText → Option OrderStatus → Uuid → System → Type 0
HasStockFor u none id s = HasNothing id s.stock
HasStockFor u (some OrderStatus.pending) id s = HasAll u id s ⊎ HasNothing id s.stock
HasStockFor u (some OrderStatus.confirmed) id s = HasAll u id s
HasStockFor u (some OrderStatus.failed) id s = HasNothing id s.stock

module _ (u : UuidText) (exchange : String) (s : System) (h : Agreement u exchange s)
    (id : Uuid) where
  granted :
      (e : String) (b : Body) (a : IsAnswer u exchange s.orders s.stock id e b)
      → IsGranted u exchange s.stock id (lines_of a.order) e b
      → HasAll u id s
  granted e b a g = record {
    order = a.order;
    event_id = a.event_id;
    same_id = a.same_id;
    asked = a.asked;
    reserved = g.reserved;
  }

  undecided : HasAll u id s ⊎ HasNothing id s.stock
  undecided = elim (Option-cases (event_of id s.stock.outbox)) [
    | inl gone ↦ inr (h.stock_side.silent id gone)
    | inr ((e, b), says) ↦
        let a = h.answers id e b says in
        elim a.outcome [ inl g ↦ inl (granted e b a g) | inr d ↦ inr d.reserved ]
  ]

  -- An order that nobody placed has no request, so no answer.
  pub unplaced_silent : status_of id s.orders.orders ≡ none → event_of id s.stock.outbox ≡ none
  unplaced_silent missing = elim (Option-cases (event_of id s.stock.outbox)) [
    | inl gone ↦ gone
    | inr ((e, b), says) ↦
        let a = h.answers id e b says in absurd (h.order_side.placed id _ _ a.asked missing)
  ]

  if_granted : (b : Body) → Says s.stock.outbox id "StockReserved" b → HasAll u id s
  if_granted b says =
      let a = h.answers id "StockReserved" b says in
      elim a.outcome [
        | inl g ↦ granted "StockReserved" b a g
        | inr d ↦ absurd (apart "StockReserved" "StockReservationFailed" refl d.typed)
      ]

  if_denied : (b : Body) → Says s.stock.outbox id "StockReservationFailed" b → HasNothing id s.stock
  if_denied b says =
      let a = h.answers id "StockReservationFailed" b says in
      elim a.outcome [
        | inl g ↦ absurd (apart "StockReservationFailed" "StockReserved" refl g.typed)
        | inr d ↦ d.reserved
      ]

  follows : (st : Option OrderStatus) → status_of id s.orders.orders ≡ st → HasStockFor u st id s
  follows none there = h.stock_side.silent id (unplaced_silent there)
  follows (some OrderStatus.pending) there = undecided
  follows (some OrderStatus.confirmed) there =
      let (b, says) = h.if_confirmed id there in if_granted b says
  follows (some OrderStatus.failed) there = let (b, says) = h.if_failed id there in if_denied b says

-- From fresh tables, whatever calls the two services and their workers make, in any order, with any
-- faults of the databases and of the broker, and with any delivery of any stored message made at
-- any later point and any number of times, the stock agrees with the orders: a CONFIRMED order has
-- exactly the pieces of every product reserved that its request asks for, a FAILED order and an
-- identifier without an order have none, and a PENDING order has all or none. The quantities of
-- the orders are Go `int`s.
pub stock_follows_status :
    (r : Rules) (u : UuidText) (fl : FloatOps) (exchange : String) (steps : List Step) (s : System)
    (id : Uuid)
    → IsFresh s
    → All HasInts steps
    → let t = run r u fl exchange steps s in HasStockFor u (status_of id t.orders.orders) id t
stock_follows_status r u fl exchange steps s id fresh ints =
    let t = run r u fl exchange steps s in
    follows u exchange t (fresh_run-Agreement r u fl exchange steps s fresh ints) id
      (status_of id t.orders.orders) refl
