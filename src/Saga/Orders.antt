-- ===== src/Saga/Orders.antt =====
-- The steps of the order service, and what they keep of the agreement.
use go_commerce_microservice.Prelude.{
  ℕ, ◌+◌, ◌≡◌, ◌≢◌, refl, sym, ◌∙◌, true, none, some, String, List, [], ◌∷◌, map, inl, inr, arith,
  All, Option-cases, ==_iff,
}
use mathlib.Core.Path.{subst}
use go_commerce_microservice.External.{Uuid, UuidText, FloatOps, Float64, Fresh}
use go_commerce_microservice.Json.{is_int64}
use go_commerce_microservice.Outbox.{OutboxMessage}
use go_commerce_microservice.Messaging.Publisher.{Link, order_event_routing_key}
use go_commerce_microservice.Order.Domain.{Order, OrderStatus, pending, fill_items, new_order}
use go_commerce_microservice.Order.Schema.{OrderDb, to_order_data_model}
use go_commerce_microservice.Order.Input.{CreateOrderInput, CreateOrderItemInput}
use go_commerce_microservice.Order.Service.{Draws, ordered, outbox_message, to_order_item}
use go_commerce_microservice.Order.Creation.{recorded}
use go_commerce_microservice.Order.Status.{status_of, status_of-append}
use go_commerce_microservice.Inventory.Schema.{InventoryDb}
use go_commerce_microservice.Saga.{HaveInts, line_of}
use go_commerce_microservice.Saga.Events.{event_of}
use go_commerce_microservice.Saga.Broker.{AreGenuine-map}
use go_commerce_microservice.Saga.Agreement.{lines_of, Says, OrderSide, IsBacked}
use go_commerce_microservice.Saga.Says.{Says-append, Says-cases, first-append}

-- The input's quantities are Go `int`s.
abbrev pub HaveIntInputs : List CreateOrderItemInput → Type 0
HaveIntInputs items = All (λ i. is_int64 i.quantity ≡ true) items

filled-HaveInts :
    (fl : FloatOps) (fresh : Fresh) (order_id : Uuid) (n : ℕ) (total : Float64)
    (items : List CreateOrderItemInput)
    → HaveIntInputs items
    → HaveInts (map line_of (fill_items fl fresh order_id n total (map to_order_item items)).0)
unfolding fill_items to_order_item
filled-HaveInts fl fresh order_id n total [] h = tt
filled-HaveInts fl fresh order_id n total (i ∷ items) (h, hs) = (
  h,
  filled-HaveInts fl fresh order_id (n + 1)
      (fl.add total (fl.mul i.unit_price (fl.of_int i.quantity))) items hs,
)

ordered-HaveInts :
    (fl : FloatOps) (d : Draws) (input : CreateOrderInput)
    → HaveIntInputs input.items
    → HaveInts (lines_of (ordered fl d input))
unfolding ordered new_order
ordered-HaveInts fl d input h = filled-HaveInts fl d.fresh (d.fresh 0) 0 0 input.items h

module _ (u : UuidText) (exchange : String) (fl : FloatOps) (d : Draws) (input : CreateOrderInput)
    (o : OrderDb) (l : Link) where
  abbrev order : Order
  order = ordered fl d input

  abbrev message : OutboxMessage
  message = outbox_message u d order

  abbrev after : OrderDb
  after = recorded order message o

  -- A row at the end has changed no status that there was.
  status_kept :
      (id : Uuid) (st : OrderStatus)
      → status_of id o.orders ≡ some st
      → status_of id after.orders ≡ some st
  status_kept id st h = status_of-append id o.orders (to_order_data_model order) ∙ rw h refl

  status_there : (id : Uuid) → status_of id o.orders ≢ none → status_of id after.orders ≢ none
  status_there id h = elim (Option-cases (status_of id o.orders)) [
    | inl gone ↦ absurd (h gone)
    | inr (st, there) ↦ ground (arith, status_kept id st there)
  ]

  order_placed : status_of order.id o.orders ≡ none → status_of order.id after.orders ≢ none
  unfolding to_order_data_model
  order_placed new = ground (
    arith,
    status_of-append order.id o.orders (to_order_data_model order),
    new,
    ==_iff order.id order.id,
  )

  is_pending : order.status ≡ pending
  unfolding ordered new_order
  is_pending = refl

  -- A settled status is an old one.
  status_old :
      (id : Uuid) (st : OrderStatus)
      → st ≢ pending
      → status_of id after.orders ≡ some st
      → status_of id o.orders ≡ some st
  unfolding to_order_data_model
  status_old id st settled h =
      ground (arith, status_of-append id o.orders (to_order_data_model order), is_pending)

  module _ (side : OrderSide u exchange o l) (new : status_of order.id o.orders ≡ none) where
    unasked : event_of order.id o.outbox ≡ none
    unasked = elim (Option-cases (event_of order.id o.outbox)) [
      | inl gone ↦ gone
      | inr ((e, b), there) ↦ absurd (side.placed order.id e b there new)
    ]

    pub place-OrderSide : HaveIntInputs input.items → OrderSide u exchange after l
    unfolding outbox_message
    place-OrderSide ints = record {
      requests = λ id e b says. elim (Says-cases o.outbox message id e b says) [
        | inl old ↦ side.requests id e b old
        | inr (gone, same, typed, written) ↦ record {
          order = order;
          event_id = d.event_id;
          same_id = same;
          typed = sym typed;
          written = sym written;
          ints = ordered-HaveInts fl d input ints;
        }
      ];
      placed = λ id e b says. elim (Says-cases o.outbox message id e b says) [
        | inl old ↦ status_there id (side.placed id e b old)
        | inr (gone, same, typed, written) ↦
            subst (λ k. status_of k after.orders ≢ none) same (order_placed new)
      ];
      first = first-append o.outbox message unasked side.first;
      sent =
          AreGenuine-map order_event_routing_key exchange (Says o.outbox) (Says after.outbox)
            (Says-append o.outbox message) l side.sent;
    }

  pub place-IsBacked :
      (st : OrderStatus) (event_type : String) (i : InventoryDb)
      → st ≢ pending
      → IsBacked u exchange st event_type o i
      → IsBacked u exchange st event_type after i
  place-IsBacked st event_type i settled h id there = h id (status_old id st settled there)
