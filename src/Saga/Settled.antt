-- ===== src/Saga/Settled.antt =====
-- What a settlement keeps of the agreement, and the deliveries that are settlements.
use go_commerce_microservice.Prelude.{
  ℕ, zero, suc, ◌≡◌, ◌≢◌, refl, sym, ap, ◌∙◌, false, Option, none, some, String, List, [], ◌∷◌, ◌⊎◌,
  inl, inr, arith, All, eq_iff, Bool-cases,
}
use text.Mathlib.Text.{◌==◌ as str_eq}
use mathlib.Core.Path.{subst}
use go_commerce_microservice.External.{Uuid, UuidText}
use go_commerce_microservice.Json.{Body}
use go_commerce_microservice.Sql.{Result, ok}
use go_commerce_microservice.Messaging.Publisher.{
  Sent, Link, order_event_routing_key, inventory_event_routing_key,
}
use go_commerce_microservice.Order.Domain.{OrderStatus}
use go_commerce_microservice.Order.Schema.{OrderDb}
use go_commerce_microservice.Order.Status.{status_of, settle}
use go_commerce_microservice.Inventory.Schema.{InventoryDb}
use go_commerce_microservice.Saga.Events.{event_of, Each}
use go_commerce_microservice.Saga.Broker.{IsGenuine, AreGenuine}
use go_commerce_microservice.Saga.System.{nth_sent, bound}
use go_commerce_microservice.Saga.Agreement.{Says, OrderSide, IsAnswer, IsBacked}
use go_commerce_microservice.Saga.Settlement.{IsSettlement}

settle-cases :
    (to st : OrderStatus) (from : Option OrderStatus)
    → settle to from ≡ some st
    → (from ≡ some st) ⊎ (st ≡ to)
settle-cases to st none h = inl h
settle-cases to st (some OrderStatus.pending) h = inr (ground arith)
settle-cases to st (some OrderStatus.confirmed) h = inl h
settle-cases to st (some OrderStatus.failed) h = inl h

settle_there : (to : OrderStatus) (from : Option OrderStatus) → from ≢ none → settle to from ≢ none
settle_there to none h = absurd (h refl)
settle_there to (some OrderStatus.pending) h = ground arith
settle_there to (some OrderStatus.confirmed) h = h
settle_there to (some OrderStatus.failed) h = h

module _ (u : UuidText) (exchange : String) (to : OrderStatus) (order_id : Uuid) (o o' : OrderDb)
    (moved : IsSettlement to order_id o o') where
  still_placed : (id : Uuid) → status_of id o.orders ≢ none → status_of id o'.orders ≢ none
  still_placed id h = elim (moved.moves id) [
    | inl same ↦ rw same h
    | inr (here, settled) ↦ rw settled (settle_there to (status_of id o.orders) h)
  ]

  pub settled-OrderSide : (l : Link) → OrderSide u exchange o l → OrderSide u exchange o' l
  settled-OrderSide l side =
      let kept : o.outbox ≡ o'.outbox = sym moved.outbox_kept in
      record {
        requests =
            λ id e b says. side.requests id e b (subst (λ t. Says t id e b) moved.outbox_kept says);
        placed = λ id e b says.
            still_placed id
              (side.placed id e b (subst (λ t. Says t id e b) moved.outbox_kept says));
        first = subst (λ t. Each (Says t) t) kept side.first;
        sent = subst (λ t. AreGenuine order_event_routing_key exchange (Says t) l) kept side.sent;
      }

  pub settled-IsAnswer :
      (i : InventoryDb) (id : Uuid) (e : String) (b : Body)
      → IsAnswer u exchange o i id e b
      → IsAnswer u exchange o' i id e b
  settled-IsAnswer i id e b a = record {
    order = a.order;
    event_id = a.event_id;
    same_id = a.same_id;
    asked = ap (event_of id) moved.outbox_kept ∙ a.asked;
    known = a.known;
    ints = a.ints;
    outcome = a.outcome;
  }

  -- Every settled status stays backed, if the one that is settled now is.
  pub settled-IsBacked :
      (i : InventoryDb) (st : OrderStatus) (e : String)
      → (st ≡ to → (b : Body) × Says i.outbox order_id e b)
      → IsBacked u exchange st e o i
      → IsBacked u exchange st e o' i
  settled-IsBacked i st e now before id there = elim (moved.moves id) [
    | inl same ↦ before id (sym same ∙ there)
    | inr (here, settled) ↦
        elim (settle-cases to st (status_of id o.orders) (sym settled ∙ there)) [
          | inl old ↦ before id old
          | inr is_to ↦ subst (λ k. (b : Body) × Says i.outbox k e b) here (now is_to)
        ]
  ]

-- A message that a queue delivers is genuine and of the queue's key.
pub picked-IsGenuine :
    (event_routing_key : String → Result String) (exchange : String)
    (P : Uuid → String → Body → Type 0) (key : String) (n : ℕ) (ms : List Sent) (m : Sent)
    → All (IsGenuine event_routing_key exchange P) ms
    → bound key (nth_sent n ms) ≡ some m
    → IsGenuine event_routing_key exchange P m × (m.routing_key ≡ key)
picked-IsGenuine event_routing_key exchange P key n [] m h e = absurd (ground arith)
picked-IsGenuine event_routing_key exchange P key zero (x ∷ ms) m (g, h) e =
    let same : x ≡ m = ground (arith, eq_iff x.routing_key key) in
    (
      subst (IsGenuine event_routing_key exchange P) same g,
      ground (arith, eq_iff x.routing_key key),
    )
picked-IsGenuine event_routing_key exchange P key (suc n) (x ∷ ms) m (g, h) e =
    picked-IsGenuine event_routing_key exchange P key n ms m h e

pub apart : (a b : String) → str_eq a b ≡ false → a ≢ b
apart a b h e = ground (arith, eq_iff a b)

same_key : (a b : String) → ok a ≡ ok b → a ≡ b
same_key a b e = ground arith

pub reserved_type :
    (event_type : String)
    → inventory_event_routing_key event_type ≡ ok "stock.reserved"
    → event_type ≡ "StockReserved"
unfolding inventory_event_routing_key
reserved_type event_type h = elim (Bool-cases (str_eq event_type "StockReserved")) [
  | inl here ↦ (eq_iff event_type "StockReserved").0 here
  | inr other ↦ elim (Bool-cases (str_eq event_type "StockReservationFailed")) [
    | inl failed_ ↦ absurd (
        apart "stock.notreserved" "stock.reserved" refl
          (same_key "stock.notreserved" "stock.reserved" (rw (other, failed_) at h)))
    | inr neither ↦ ground arith
  ]
]

pub not_reserved_type :
    (event_type : String)
    → inventory_event_routing_key event_type ≡ ok "stock.notreserved"
    → event_type ≡ "StockReservationFailed"
unfolding inventory_event_routing_key
not_reserved_type event_type h = elim (Bool-cases (str_eq event_type "StockReserved")) [
  | inl here ↦ absurd (
      apart "stock.reserved" "stock.notreserved" refl
        (same_key "stock.reserved" "stock.notreserved" (rw here at h)))
  | inr other ↦ elim (Bool-cases (str_eq event_type "StockReservationFailed")) [
    | inl failed_ ↦ (eq_iff event_type "StockReservationFailed").0 failed_
    | inr neither ↦ ground arith
  ]
]
