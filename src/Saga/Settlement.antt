-- ===== src/Saga/Settlement.antt =====
-- A delivered answer at the order service, and what its handling keeps of the agreement.
use go_commerce_microservice.Prelude.{
  ◌≡◌, refl, ap, ◌∙◌, String, ◌⊎◌, inl, inr, arith, ◌==◌, ==_iff, Bool-cases,
}
use go_commerce_microservice.External.{Uuid, Time}
use go_commerce_microservice.Json.{Body}
use go_commerce_microservice.Sql.{Fault, fine, refused, lost, statement, Call, ◌>>◌}
use go_commerce_microservice.Sql.Rows.{insert_unique}
use go_commerce_microservice.Order.Domain.{OrderStatus}
use go_commerce_microservice.Order.Schema.{OrderDb}
use go_commerce_microservice.Order.Repository.{Faults, settle_order, save_processed}
use go_commerce_microservice.Order.Service.{handle_once}
use go_commerce_microservice.Order.Status.{
  status_of, settle, status_of-update, orders-save_processed,
}
use go_commerce_microservice.Order.Handling.{handle_once-cases, attempt}

outbox-save_processed :
    (f : Fault) (id : Uuid) (now : Time) (m : Uuid) (event_type : String) (payload : Body)
    (s : OrderDb)
    → (save_processed f id now m event_type payload s).1.outbox ≡ s.outbox
unfolding save_processed statement insert_unique
outbox-save_processed f id now m event_type payload s = ground arith

outbox-attempt :
    (to : OrderStatus) (f : Fault) (now : Time) (order_id : Uuid) (save : Call OrderDb (Unit {0}))
    (s : OrderDb)
    → ((t : OrderDb) → (save t).1.outbox ≡ t.outbox)
    → ((settle_order to f now order_id >> save) s).1.outbox ≡ s.outbox
unfolding settle_order statement
outbox-attempt to fine now order_id save s h = h _
outbox-attempt to (refused e) now order_id save s h = refl
outbox-attempt to (lost e) now order_id save s h = refl

-- What a handling does to the outbox and to every order's status.
pub record IsSettlement (to : OrderStatus) (order_id : Uuid) (s t : OrderDb) : Type 0 where
  pub outbox_kept : t.outbox ≡ s.outbox
  pub moves :
      (other : Uuid)
      → (status_of other t.orders ≡ status_of other s.orders)
        ⊎ ((order_id ≡ other) × (status_of other t.orders ≡ settle to (status_of other s.orders)))

unmoved :
    (to : OrderStatus) (order_id : Uuid) (s t : OrderDb) → t ≡ s → IsSettlement to order_id s t
unmoved to order_id s t same = record {
  outbox_kept = ap (λ d. d.outbox) same;
  moves = λ other. inl (ap (λ d. status_of other d.orders) same);
}

module _ (to : OrderStatus) (f : Faults) (now : Time) (id m order_id : Uuid) (event_type : String)
    (payload : Body) (s : OrderDb) where
  abbrev handled : OrderDb
  handled =
      (handle_once f now id m event_type payload (settle_order to f.update_order now order_id) s).1

  pub handle_once-IsSettlement : IsSettlement to order_id s handled
  handle_once-IsSettlement =
      let update = settle_order to f.update_order now order_id in
      let save = save_processed f.save_processed id now m event_type payload in
      elim (handle_once-cases f now id m event_type payload update s) [
        | inl (e, fault, failed_read) ↦
            unmoved to order_id s handled (ap (λ out. out.1) failed_read)
        | inr (inl (old, known)) ↦ unmoved to order_id s handled (ap (λ out. out.1) known)
        | inr (inr (new, ran)) ↦
            let whole = ap (λ out. out.1) ran in
            elim (attempt to f.update_order now order_id save s
              (λ d. orders-save_processed f.save_processed id now m event_type payload d)) [
                | inl same ↦ unmoved to order_id s handled (whole ∙ same)
                | inr done ↦ record {
                  outbox_kept =
                      ap (λ d. d.outbox) whole
                      ∙ outbox-attempt to f.update_order now order_id save s
                          (outbox-save_processed f.save_processed id now m event_type payload);
                  moves = λ other.
                      let moved =
                        ap (λ d. status_of other d.orders) whole
                        ∙ ap (status_of other) done
                        ∙ status_of-update order_id other to now s.orders in
                      elim (Bool-cases (order_id == other)) [
                        | inl here ↦ inr ((==_iff order_id other).0 here, moved ∙ rw here refl)
                        | inr elsewhere ↦ inl (moved ∙ rw elsewhere refl)
                      ];
                }
              ]
      ]
