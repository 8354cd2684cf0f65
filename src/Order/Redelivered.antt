-- ===== src/Order/Redelivered.antt =====
-- A stock event that is delivered again, after other events.
use mathlib.Core.Path.{subst}
use go_commerce_microservice.Prelude.{◌≡◌, refl, true, List, [], ◌∷◌, sym}
use go_commerce_microservice.External.{Uuid, Time}
use go_commerce_microservice.Json.{Body}
use go_commerce_microservice.Sql.{ok, Fault, fine, refused, lost, statement, Call}
use go_commerce_microservice.Order.Domain.{OrderStatus, confirmed, failed}
use go_commerce_microservice.Order.Schema.{OrderDb}
use go_commerce_microservice.Order.Repository.{Faults, settle_order, confirm_order, reject_order}
use go_commerce_microservice.Order.Service.{handle_confirm_order, handle_reject_order}
use go_commerce_microservice.Order.Handling.{
  remembers, handle_once-ok, handle_once-remembered, handle_once-remembers,
}

settle_keeps :
    (to : OrderStatus) (f : Fault) (now : Time) (order_id : Uuid) (s : OrderDb)
    → (settle_order to f now order_id s).1.inbox ≡ s.inbox
unfolding settle_order statement
settle_keeps to fine now order_id s = refl
settle_keeps to (refused e) now order_id s = refl
settle_keeps to (lost e) now order_id s = refl

-- One handling of a stock event: which of the two, its environment and its contents.
pub data StockEvent : Type 0 where
  stock_reserved : StockEvent
  stock_reservation_failed : StockEvent

pub record Handling : Type 0 where
  pub event : StockEvent
  pub faults : Faults
  pub now : Time
  pub inbox_id : Uuid
  pub order_id : Uuid
  pub message_id : Uuid
  pub payload : Body

unfoldable pub handle : Handling → Call OrderDb (Unit {0})
handle a = elim a.event [
  | stock_reserved ↦
      handle_confirm_order a.faults a.now a.inbox_id a.order_id a.message_id a.payload
  | stock_reservation_failed ↦
      handle_reject_order a.faults a.now a.inbox_id a.order_id a.message_id a.payload
]

-- Handlings one after another, whatever each returns.
unfoldable pub handle_all : List Handling → OrderDb → OrderDb
handle_all [] s = s
handle_all (a ∷ rest) s = handle_all rest (handle a s).1

-- What a handling has done, in the terms of the handler that it calls.
module _ (a : Handling) (s : OrderDb) where
  abbrev Facts : Call OrderDb (Unit {0}) → Type 0
  Facts call =
      (remembers a.message_id s ≡ true → (call s).1 ≡ s)
      × ((call s).0 ≡ ok tt → remembers a.message_id (call s).1 ≡ true)
      × ((k : Uuid) → remembers k s ≡ true → remembers k (call s).1 ≡ true)

  facts : (e : StockEvent) → a.event ≡ e → Facts (handle a)
  unfolding handle handle_confirm_order handle_reject_order confirm_order reject_order
  facts stock_reserved is =
      let update = settle_order confirmed a.faults.update_order a.now a.order_id in
      rw is (
        handle_once-remembered a.faults a.now a.inbox_id a.message_id "StockReserved" a.payload
            update s,
        handle_once-ok a.faults a.now a.inbox_id a.message_id "StockReserved" a.payload update s,
        λ k.
            handle_once-remembers a.faults a.now a.inbox_id a.message_id "StockReserved" a.payload
              update s k (settle_keeps confirmed a.faults.update_order a.now a.order_id),
      )
  facts stock_reservation_failed is =
      let update = settle_order failed a.faults.update_order a.now a.order_id in
      rw is (
        handle_once-remembered a.faults a.now a.inbox_id a.message_id "StockReservationFailed"
            a.payload update s,
        handle_once-ok a.faults a.now a.inbox_id a.message_id "StockReservationFailed" a.payload
            update s,
        λ k.
            handle_once-remembers a.faults a.now a.inbox_id a.message_id "StockReservationFailed"
              a.payload update s k (settle_keeps failed a.faults.update_order a.now a.order_id),
      )

handle_all-remembers :
    (rest : List Handling) (s : OrderDb) (k : Uuid)
    → remembers k s ≡ true
    → remembers k (handle_all rest s) ≡ true
unfolding handle_all
handle_all-remembers [] s k h = h
handle_all-remembers (a ∷ rest) s k h =
    handle_all-remembers rest (handle a s).1 k ((facts a s a.event refl).2 k h)

-- Once a stock event, of either kind, has been handled without an error, every later delivery of
-- its message, after any other handlings, to either handler, with any faults and any contents,
-- changes nothing.
pub redelivery_ignored :
    (first again : Handling) (later : List Handling) (s : OrderDb)
    → again.message_id ≡ first.message_id
    → (handle first s).0 ≡ ok tt
    → let t = handle_all later (handle first s).1 in (handle again t).1 ≡ t
redelivery_ignored first again later s same h =
    let t = handle_all later (handle first s).1 in
    let known =
      handle_all-remembers later (handle first s).1 first.message_id
        ((facts first s first.event refl).1 h) in
    (facts again t again.event refl).0 (subst (λ m. remembers m t ≡ true) (sym same) known)
