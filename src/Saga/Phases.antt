-- ===== src/Saga/Phases.antt =====
-- The life of an order across both services, as one small machine.
use go_commerce_microservice.Prelude.{
  ◌≡◌, ◌≢◌, refl, sym, ap, ◌∙◌, Option, none, some, String, List, ◌++◌, [], ◌∷◌, ◌⊎◌, inl, inr,
  arith, All, Option-cases, Bool-cases, if◌then◌else◌,
}
use text.Mathlib.Text.{◌==◌ as str_eq}
use mathlib.Core.Path.{subst}
use go_commerce_microservice.External.{Uuid, UuidText, FloatOps}
use go_commerce_microservice.Json.{Body}
use go_commerce_microservice.Messaging.Publisher.{inventory_event_routing_key}
use go_commerce_microservice.Order.Domain.{
  Order, new_order, OrderStatus, pending, confirmed, failed,
}
use go_commerce_microservice.Order.Input.{CreateOrderInput, Rules}
use go_commerce_microservice.Order.Repository.{Faults}
use go_commerce_microservice.Order.Schema.{OrderDb, to_order_data_model}
use go_commerce_microservice.Order.Service.{event_payload, Draws, ordered}
use go_commerce_microservice.Order.Creation.{Outcome, create_order_atomic}
use go_commerce_microservice.Order.Status.{status_of, status_of-append, settle}
use go_commerce_microservice.Inventory.Schema.{InventoryDb}
use go_commerce_microservice.Sql.{Result}
use go_commerce_microservice.Saga.Events.{Event, event_of}
use go_commerce_microservice.Saga.Says.{Says-append, Says-cases}
use go_commerce_microservice.Saga.Agreement.{Says, Agreement}
use go_commerce_microservice.Saga.System.{System, Step, step, run}
use go_commerce_microservice.Saga.Ticks.{event_of-tick}
use go_commerce_microservice.Saga.Answered.{IsAnswered}
use go_commerce_microservice.Saga.Deliveries.{IsServed, reserve_step, confirm_step, reject_step}
use go_commerce_microservice.Saga.Steps.{HasInts, IsFresh, fresh_run-Agreement}
use go_commerce_microservice.Saga.Outcomes.{unplaced_silent}

pub data Phase : Type 0 where
  absent placed granted refused completed rejected : Phase

-- The phase of a pending order is the answer that the inventory service has written.
abbrev pub pending_phase : Option Event → Phase
pending_phase none = Phase.placed
pending_phase (some (event_type, payload)) =
    if str_eq event_type "StockReserved" then Phase.granted else Phase.refused

abbrev pub phase : Option OrderStatus → Option Event → Phase
phase none answer = Phase.absent
phase (some OrderStatus.pending) answer = pending_phase answer
phase (some OrderStatus.confirmed) answer = Phase.completed
phase (some OrderStatus.failed) answer = Phase.rejected

abbrev pub phase_of : Uuid → System → Phase
phase_of id s = phase (status_of id s.orders.orders) (event_of id s.stock.outbox)

-- The moves that an order may make.
pub data Move : Phase → Phase → Type 0 where
  stay : {p : Phase} → Move p p
  place : Move Phase.absent Phase.placed
  grant : Move Phase.placed Phase.granted
  refuse : Move Phase.placed Phase.refused
  confirm : Move Phase.granted Phase.completed
  fail : Move Phase.refused Phase.rejected

stays : (p q : Phase) → q ≡ p → Move p q
stays p q same = subst (Move p) (sym same) Move.stay

placed_status :
    (fl : FloatOps) (d : Draws) (input : CreateOrderInput) (o : OrderDb) (id : Uuid)
    → status_of (ordered fl d input).id o.orders ≡ none
    → let to = status_of id (o.orders ++ to_order_data_model (ordered fl d input) ∷ []) in
      (to ≡ status_of id o.orders) ⊎ ((status_of id o.orders ≡ none) × (to ≡ some pending))
unfolding to_order_data_model ordered new_order
placed_status fl d input o id new =
    ground (arith, status_of-append id o.orders (to_order_data_model (ordered fl d input)))

module _ (u : UuidText) (exchange : String) (s : System) (h : Agreement u exchange s)
    (id : Uuid) where
  abbrev status : Option OrderStatus
  status = status_of id s.orders.orders

  abbrev answer : Option Event
  answer = event_of id s.stock.outbox

  -- A new order makes at most its own identifier's first move.
  appears :
      (to : Option OrderStatus)
      → (to ≡ status) ⊎ ((status ≡ none) × (to ≡ some pending))
      → Move (phase status answer) (phase to answer)
  appears to (inl same) = stays _ _ (ap (λ st. phase st answer) same)
  appears to (inr (missing, new)) =
      rw (missing, new, unplaced_silent u exchange s h id missing) Move.place

  answers_pending : (e : Event) → Move Phase.placed (pending_phase (some e))
  answers_pending (e, b) = elim (Bool-cases (str_eq e "StockReserved")) [
    | inl here ↦ rw here Move.grant
    | inr other ↦ rw other Move.refuse
  ]

  answers_by :
      (st : Option OrderStatus) (e : Event) → st ≢ none → Move (phase st none) (phase st (some e))
  answers_by none e there = absurd (there refl)
  answers_by (some OrderStatus.pending) e there = answers_pending e
  answers_by (some OrderStatus.confirmed) e there = Move.stay
  answers_by (some OrderStatus.failed) e there = Move.stay

  settles_confirmed :
      (st : Option OrderStatus) (b : Body)
      → Move
          (phase st (some ("StockReserved", b)))
          (phase (settle confirmed st) (some ("StockReserved", b)))
  settles_confirmed none b = Move.stay
  settles_confirmed (some OrderStatus.pending) b = Move.confirm
  settles_confirmed (some OrderStatus.confirmed) b = Move.stay
  settles_confirmed (some OrderStatus.failed) b = Move.stay

  settles_failed :
      (st : Option OrderStatus) (b : Body)
      → Move
          (phase st (some ("StockReservationFailed", b)))
          (phase (settle failed st) (some ("StockReservationFailed", b)))
  settles_failed none b = Move.stay
  settles_failed (some OrderStatus.pending) b = Move.fail
  settles_failed (some OrderStatus.confirmed) b = Move.stay
  settles_failed (some OrderStatus.failed) b = Move.stay

  outcome_moves :
      (r : Rules) (fl : FloatOps) (f : Faults) (d : Draws) (input : CreateOrderInput)
      (out : Result Order × OrderDb)
      → Outcome r u fl f d input s.orders out
      → Move (phase status answer) (phase (status_of id out.1.orders) answer)
  outcome_moves r fl f d input out (Outcome.created good new) =
      appears _ (placed_status fl d input s.orders id new)
  outcome_moves r fl f d input out (Outcome.rejected bad) = Move.stay
  outcome_moves r fl f d input out (Outcome.unchanged good why) = Move.stay
  outcome_moves r fl f d input out (Outcome.in_doubt good c new) =
      appears _ (placed_status fl d input s.orders id new)

  served_moves :
      (i' : InventoryDb)
      → IsServed u exchange s.orders s.stock i'
      → Move (phase status answer) (phase status (event_of id i'.outbox))
  served_moves i' v = elim (Option-cases (event_of id i'.outbox)) [
    | inl gone ↦ elim (Option-cases answer) [
      | inl none_yet ↦ stays _ _ (ap (phase status) (gone ∙ sym none_yet))
      | inr ((e, b), there) ↦ absurd (
          ground (
            arith,
            gone,
            ap (event_of id) v.reply.outbox
                ∙ Says-append s.stock.outbox v.reply.message id e b there,
          ))
    ]
    | inr ((e, b), says) ↦
        elim (Says-cases s.stock.outbox v.reply.message id e b
          (ap (event_of id) (sym v.reply.outbox) ∙ says)) [
            | inl old ↦ stays _ _ (ap (phase status) (says ∙ sym old))
            | inr (gone, here, typed, written) ↦
                let placed : status ≢ none =
                  h.order_side.placed id "ReserveStockRequested"
                    (event_payload u v.event_id v.asking.order)
                    (subst
                      (λ k.
                        Says s.orders.outbox k "ReserveStockRequested"
                          (event_payload u v.event_id v.asking.order))
                      (sym v.reply.named ∙ here) v.asking.asked) in
                rw (gone, says) (answers_by status (e, b) placed)
          ]
  ]

  confirmed_moves :
      (o' : OrderDb)
      → IsAnswered confirmed "StockReserved" s.stock s.orders o'
      → Move (phase status answer) (phase (status_of id o'.orders) answer)
  confirmed_moves o' v = elim (v.settlement.moves id) [
    | inl same ↦ stays _ _ (ap (λ st. phase st answer) same)
    | inr (here, settled) ↦
        let (b, says) = v.says in
        rw (settled, subst (λ k. Says s.stock.outbox k "StockReserved" b) here says)
          (settles_confirmed status b)
  ]

  rejected_moves :
      (o' : OrderDb)
      → IsAnswered failed "StockReservationFailed" s.stock s.orders o'
      → Move (phase status answer) (phase (status_of id o'.orders) answer)
  rejected_moves o' v = elim (v.settlement.moves id) [
    | inl same ↦ stays _ _ (ap (λ st. phase st answer) same)
    | inr (here, settled) ↦
        let (b, says) = v.says in
        rw (settled, subst (λ k. Says s.stock.outbox k "StockReservationFailed" b) here says)
          (settles_failed status b)
  ]

  step_moves :
      (r : Rules) (fl : FloatOps) (a : Step)
      → Move (phase_of id s) (phase_of id (step r u fl exchange a s))
  unfolding step
  step_moves r fl (Step.place f d input) =
      outcome_moves r fl f d input _ (create_order_atomic r u fl f d input s.orders)
  step_moves r fl (Step.publish_orders t) = Move.stay
  step_moves r fl (Step.publish_stock t) = stays _ _ (
      ap (phase status)
        (event_of-tick inventory_event_routing_key exchange t s.stock.outbox s.stock_link id))
  step_moves r fl (Step.reserve t n headers properties) =
      elim (reserve_step r u fl exchange s.orders s.stock s.order_link n headers properties t
        h.order_side h.stock_side.keyed) [
          | inl same ↦
              stays _ _ (ap (λ (i : InventoryDb). phase status (event_of id i.outbox)) same)
          | inr v ↦ served_moves _ v
        ]
  step_moves r fl (Step.confirm p t n headers properties) =
      elim (confirm_step r u fl exchange s.orders s.stock s.stock_link n headers properties p t
        h.stock_side h.answers) [
          | inl same ↦ stays _ _ (ap (λ (o : OrderDb). phase (status_of id o.orders) answer) same)
          | inr v ↦ confirmed_moves _ v
        ]
  step_moves r fl (Step.reject p t n headers properties) =
      elim (reject_step r u fl exchange s.orders s.stock s.stock_link n headers properties p t
        h.stock_side h.answers) [
          | inl same ↦ stays _ _ (ap (λ (o : OrderDb). phase (status_of id o.orders) answer) same)
          | inr v ↦ rejected_moves _ v
        ]

-- The two services refine one small machine: seen from any order, in any state that calls lead to
-- from fresh tables, every further call either leaves the order's phase or makes one of the moves
-- absent to placed, placed to granted or refused, granted to completed, refused to rejected.
-- The phase is read from the order's status and the inventory service's answer. The quantities of
-- the orders placed before are Go `int`s.
pub step_refines :
    (r : Rules) (u : UuidText) (fl : FloatOps) (exchange : String) (steps : List Step) (a : Step)
    (s : System) (id : Uuid)
    → IsFresh s
    → All HasInts steps
    → let t = run r u fl exchange steps s in
      Move (phase_of id t) (phase_of id (step r u fl exchange a t))
step_refines r u fl exchange steps a s id fresh ints =
    let t = run r u fl exchange steps s in
    step_moves u exchange t (fresh_run-Agreement r u fl exchange steps s fresh ints) id r fl a
