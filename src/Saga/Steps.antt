-- ===== src/Saga/Steps.antt =====
-- The agreement along any interleaving of calls, from empty tables on.
use go_commerce_microservice.Prelude.{
  ◌≡◌, refl, sym, ap, some, String, List, [], ◌∷◌, inl, inr, arith, All,
}
use mathlib.Core.Path.{subst}
use go_commerce_microservice.External.{Uuid, UuidText, FloatOps}
use go_commerce_microservice.Order.Domain.{OrderStatus, confirmed, failed}
use go_commerce_microservice.Order.Input.{Rules}
use go_commerce_microservice.Order.Service.{create_order}
use go_commerce_microservice.Order.Creation.{create_order_atomic}
use go_commerce_microservice.Inventory.Stock.{IsKeyed}
use go_commerce_microservice.Saga.System.{System, Step, step, run}
use go_commerce_microservice.Sql.Rows.{first_where}
use go_commerce_microservice.Json.{Body}
use go_commerce_microservice.Outbox.{Outbox}
use go_commerce_microservice.Order.Status.{status_of}
use go_commerce_microservice.Order.Schema.{OrderDataModel}
use go_commerce_microservice.Saga.Events.{event_of}
use go_commerce_microservice.Saga.Agreement.{Says, Agreement}
use go_commerce_microservice.Saga.Orders.{HaveIntInputs}
use go_commerce_microservice.Saga.Consistent.{
  recorded-Agreement, orders_tick-Agreement, stock_tick-Agreement, served-Agreement,
  confirmed-Agreement, failed-Agreement,
}
use go_commerce_microservice.Saga.Deliveries.{reserve_step, confirm_step, reject_step}

-- The quantities that a call brings are Go `int`s.
unfoldable pub HasInts : Step → Type 0
HasInts (Step.place f d input) = HaveIntInputs input.items
HasInts (Step.publish_orders t) = Unit {0}
HasInts (Step.publish_stock t) = Unit {0}
HasInts (Step.reserve t n headers properties) = Unit {0}
HasInts (Step.confirm p t n headers properties) = Unit {0}
HasInts (Step.reject p t n headers properties) = Unit {0}

-- No order, no message and no reservation yet; the stock is any, with the schema's keys.
pub record IsFresh (s : System) : Type 0 where
  pub no_orders : s.orders.orders ≡ []
  pub no_requests : s.orders.outbox ≡ []
  pub none_sent : s.order_link.stored ≡ []
  pub no_answers : s.stock.outbox ≡ []
  pub none_answered : s.stock_link.stored ≡ []
  pub no_reservations : s.stock.reservations ≡ []
  pub keyed : IsKeyed s.stock.inventory

module _ (r : Rules) (u : UuidText) (fl : FloatOps) (exchange : String) where
  pub step-Agreement :
      (a : Step) (s : System)
      → HasInts a
      → Agreement u exchange s
      → Agreement u exchange (step r u fl exchange a s)
  unfolding step HasInts
  step-Agreement (Step.place f d input) s ints h =
      recorded-Agreement u exchange s h r fl f d input
        (let out = create_order r u fl f d input s.orders in (out.0, out.1)) ints
        (create_order_atomic r u fl f d input s.orders)
  step-Agreement (Step.publish_orders t) s ints h = orders_tick-Agreement u exchange s h t
  step-Agreement (Step.publish_stock t) s ints h = stock_tick-Agreement u exchange s h t
  step-Agreement (Step.reserve t n headers properties) s ints h =
      elim (reserve_step r u fl exchange s.orders s.stock s.order_link n headers properties t
        h.order_side h.stock_side.keyed) [
          | inl same ↦ subst (λ i. Agreement u exchange (record s { stock = i })) (sym same) h
          | inr v ↦ served-Agreement u exchange s h _ v
        ]
  step-Agreement (Step.confirm p t n headers properties) s ints h =
      elim (confirm_step r u fl exchange s.orders s.stock s.stock_link n headers properties p t
        h.stock_side h.answers) [
          | inl same ↦ subst (λ o. Agreement u exchange (record s { orders = o })) (sym same) h
          | inr v ↦ confirmed-Agreement u exchange s h _ v
        ]
  step-Agreement (Step.reject p t n headers properties) s ints h =
      elim (reject_step r u fl exchange s.orders s.stock s.stock_link n headers properties p t
        h.stock_side h.answers) [
          | inl same ↦ subst (λ o. Agreement u exchange (record s { orders = o })) (sym same) h
          | inr v ↦ failed-Agreement u exchange s h _ v
        ]

  run-Agreement :
      (steps : List Step) (s : System)
      → All HasInts steps
      → Agreement u exchange s
      → Agreement u exchange (run r u fl exchange steps s)
  unfolding run
  run-Agreement [] s ints h = h
  run-Agreement (a ∷ steps) s (i, is_) h =
      run-Agreement steps (step r u fl exchange a s) is_ (step-Agreement a s i h)

silent : (table : Outbox) (id : Uuid) (e : String) (b : Body) → table ≡ [] → ¬ Says table id e b
silent table id e b none_yet says = ground (arith, ap (event_of id) none_yet, says)

unplaced :
    (rows : List OrderDataModel) (id : Uuid) (st : OrderStatus)
    → rows ≡ []
    → ¬ (status_of id rows ≡ some st)
unfolding status_of first_where
unplaced rows id st none_yet there = ground (arith, ap (status_of id) none_yet, there)

fresh-Agreement :
    (u : UuidText) (exchange : String) (s : System) → IsFresh s → Agreement u exchange s
fresh-Agreement u exchange s f = record {
  order_side = record {
    requests = λ id e b says. absurd (silent s.orders.outbox id e b f.no_requests says);
    placed = λ id e b says. absurd (silent s.orders.outbox id e b f.no_requests says);
    first = rw f.no_requests tt;
    sent = rw f.none_sent tt;
  };
  stock_side = record {
    keyed = f.keyed;
    first = rw f.no_answers tt;
    sent = rw f.none_answered tt;
    silent = λ id gone p. rw f.no_reservations refl;
  };
  answers = λ id e b says. absurd (silent s.stock.outbox id e b f.no_answers says);
  if_confirmed = λ id there. absurd (unplaced s.orders.orders id confirmed f.no_orders there);
  if_failed = λ id there. absurd (unplaced s.orders.orders id failed f.no_orders there);
}

-- Whatever calls are made from fresh tables on, the agreement holds.
pub fresh_run-Agreement :
    (r : Rules) (u : UuidText) (fl : FloatOps) (exchange : String) (steps : List Step) (s : System)
    → IsFresh s
    → All HasInts steps
    → Agreement u exchange (run r u fl exchange steps s)
fresh_run-Agreement r u fl exchange steps s fresh ints =
    run-Agreement r u fl exchange steps s ints (fresh-Agreement u exchange s fresh)
