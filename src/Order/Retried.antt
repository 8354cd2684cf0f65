-- ===== src/Order/Retried.antt =====
-- A stock event whose first attempt broke off anywhere, and its retry.
use go_commerce_microservice.Prelude.{
  ◌≡◌, refl, true, false, Option, none, some, arith, ◌==◌, if◌then◌else◌, String, Bool-cases, inl,
  inr, ◌∙◌, ap, ◌⊎◌, sym,
}
use go_commerce_microservice.External.{Uuid, Time}
use go_commerce_microservice.Json.{Body}
use go_commerce_microservice.Sql.{fine, statement}
use go_commerce_microservice.Order.Domain.{OrderStatus, confirmed, failed}
use go_commerce_microservice.Order.Schema.{OrderDb}
use go_commerce_microservice.Order.Repository.{
  Faults, settle_order, confirm_order, reject_order, save_processed,
}
use go_commerce_microservice.Order.Service.{handle_once, handle_confirm_order, handle_reject_order}
use go_commerce_microservice.Order.Status.{
  status_of, settle, status_of-update, orders-save_processed,
}
use go_commerce_microservice.Order.Handling.{remembers, no_faults, handle_once-cases, attempt}

module _ (to : OrderStatus) (now : Time) (id order_id m : Uuid) (event_type : String)
    (payload : Body) where
  -- The handling of a stock event that says `to`, with no fault.
  abbrev clean : OrderDb → OrderDb
  clean s =
      (handle_once no_faults now id m event_type payload (settle_order to fine now order_id) s).1

  -- What a reader of the order `other` sees after it.
  abbrev settled_once : Uuid → OrderDb → Option OrderStatus
  settled_once other s =
      if order_id == other then settle to (status_of other s.orders) else status_of other s.orders

  clean_known : (s : OrderDb) → remembers m s ≡ true → clean s ≡ s
  clean_known s h =
      elim (handle_once-cases no_faults now id m event_type payload
        (settle_order to fine now order_id) s) [
          | inl (e, fault, failed_read) ↦ absurd (fault refl)
          | inr (inl (old, known)) ↦ ap (λ out. out.1) known
          | inr (inr (new, run)) ↦ absurd (ground arith)
        ]

  clean_new :
      (other : Uuid) (s : OrderDb)
      → remembers m s ≡ false
      → status_of other (clean s).orders ≡ settled_once other s
  unfolding settle_order statement
  clean_new other s h =
      elim (handle_once-cases no_faults now id m event_type payload
        (settle_order to fine now order_id) s) [
          | inl (e, fault, failed_read) ↦ absurd (fault refl)
          | inr (inl (old, known)) ↦ absurd (ground arith)
          | inr (inr (new, run)) ↦
              ap (λ out. status_of other out.1.orders) run
              ∙ ap (status_of other) (orders-save_processed fine id now m event_type payload _)
              ∙ status_of-update order_id other to now s.orders
        ]

  settled_twice :
      (other : Uuid) (s t : OrderDb)
      → status_of other t.orders ≡ settled_once other s
      → settled_once other t ≡ settled_once other s
  settled_twice other s t h = elim (Bool-cases (order_id == other)) [
    | inl same ↦ rw (same, h, same) (go to (status_of other s.orders))
    | inr differ ↦ rw (differ, h, differ) refl
  ]
    where
      go : (to : OrderStatus) (o : Option OrderStatus) → settle to (settle to o) ≡ settle to o
      go to none = refl
      go OrderStatus.pending (some OrderStatus.pending) = refl
      go OrderStatus.confirmed (some OrderStatus.pending) = refl
      go OrderStatus.failed (some OrderStatus.pending) = refl
      go to (some OrderStatus.confirmed) = refl
      go to (some OrderStatus.failed) = refl

  -- A retry after an attempt that has made its update, or has done nothing.
  clean_after :
      (other : Uuid) (s t : OrderDb)
      → remembers m s ≡ false
      → (t ≡ s) ⊎ (status_of other t.orders ≡ settled_once other s)
      → status_of other (clean t).orders ≡ status_of other (clean s).orders
  clean_after other s t new (inl same) = rw same refl
  clean_after other s t new (inr done) = elim (Bool-cases (remembers m t)) [
    | inl known ↦
        ap (λ d. status_of other d.orders) (clean_known t known)
        ∙ done
        ∙ sym (clean_new other s new)
    | inr unknown ↦
        clean_new other t unknown ∙ settled_twice other s t done ∙ sym (clean_new other s new)
  ]

  -- The first attempt, at another time and with faults.
  clean_retry :
      (f : Faults) (then_ : Time) (row_id other : Uuid) (s : OrderDb)
      → let t =
          (handle_once f then_ row_id m event_type payload
            (settle_order to f.update_order then_ order_id)
            s).1 in
        status_of other (clean t).orders ≡ status_of other (clean s).orders
  clean_retry f then_ row_id other s =
      let update = settle_order to f.update_order then_ order_id in
      let save = save_processed f.save_processed row_id then_ m event_type payload in
      let t = (handle_once f then_ row_id m event_type payload update s).1 in
      elim (handle_once-cases f then_ row_id m event_type payload update s) [
        | inl (e, fault, failed_read) ↦ ap (λ out. status_of other (clean out.1).orders) failed_read
        | inr (inl (old, known)) ↦ ap (λ out. status_of other (clean out.1).orders) known
        | inr (inr (new, run)) ↦
            elim (attempt to f.update_order then_ order_id save s
              (λ d. orders-save_processed f.save_processed row_id then_ m event_type payload d)) [
                | inl same ↦ clean_after other s t new (inl (ap (λ out. out.1) run ∙ same))
                | inr done ↦ clean_after other s t new (
                    inr (
                      ap (λ out. status_of other out.1.orders) run
                      ∙ ap (status_of other) done
                      ∙ status_of-update order_id other to then_ s.orders))
              ]
      ]

-- A first attempt that is broken off anywhere, by any faults, and a clean retry of the same stock
-- event leave every order with the status that one clean handling gives it.
pub retry_converges :
    (f : Faults) (now now' : Time) (id id' order_id other m : Uuid) (payload : Body) (s : OrderDb)
    → let confirming = handle_confirm_order no_faults now' id' order_id m payload in
      let rejecting = handle_reject_order no_faults now' id' order_id m payload in
      let confirm_tried = (handle_confirm_order f now id order_id m payload s).1 in
      let reject_tried = (handle_reject_order f now id order_id m payload s).1 in
      (status_of other (confirming confirm_tried).1.orders
        ≡ status_of other (confirming s).1.orders)
      × (status_of other (rejecting reject_tried).1.orders ≡ status_of other (rejecting s).1.orders)
unfolding handle_confirm_order handle_reject_order confirm_order reject_order
retry_converges f now now' id id' order_id other m payload s = (
  clean_retry confirmed now' id' order_id m "StockReserved" payload f now id other s,
  clean_retry failed now' id' order_id m "StockReservationFailed" payload f now id other s,
)

-- One clean handling of a message that is not in the inbox settles the order if it is pending,
-- CONFIRMED or FAILED by the event, and leaves every other order's status alone.
pub clean_handling :
    (now : Time) (id order_id other m : Uuid) (payload : Body) (s : OrderDb)
    → remembers m s ≡ false
    → let after = λ (to : OrderStatus).
      (if order_id == other
        then settle to (status_of other s.orders)
        else status_of other s.orders) in
      (status_of other (handle_confirm_order no_faults now id order_id m payload s).1.orders
        ≡ after confirmed)
      × (status_of other (handle_reject_order no_faults now id order_id m payload s).1.orders
          ≡ after failed)
unfolding handle_confirm_order handle_reject_order confirm_order reject_order
clean_handling now id order_id other m payload s h = (
  clean_new confirmed now id order_id m "StockReserved" payload other s h,
  clean_new failed now id order_id m "StockReservationFailed" payload other s h,
)
