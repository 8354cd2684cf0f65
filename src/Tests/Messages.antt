-- ===== src/Tests/Messages.antt =====
-- The messaging theorems at concrete data.
use go_commerce_microservice.Prelude.{
  ℕ, zero, suc, ◌≢◌, ◌≡◌, refl, true, false, String, Option, none, some, [], ◌∷◌, map, arith,
}
use go_commerce_microservice.Prelude.Int.{pos, ◌+ℤ◌}
use go_commerce_microservice.Error.{Error, Sentinel}
use go_commerce_microservice.Json.{malformed}
use go_commerce_microservice.Sql.{ok, fine, statement}
use go_commerce_microservice.Sql.Rows.{select_where, any, count_where, insert_unique}
use go_commerce_microservice.Outbox.{Outbox, oldest_unprocessed, order_by_time, insert_by_time}
use go_commerce_microservice.Messaging.Delivery.{
  BrokerReply, confirmed, negative, no_confirm, Delivery, acked,
}
use go_commerce_microservice.Messaging.Events.{event_of_fields, not_reserved_of_fields, unmarshal}
use go_commerce_microservice.Messaging.Publisher.{
  Link, Sent, waiting, order_event_routing_key, publish, send, settled, after_reply, await_return,
  receive,
}
use go_commerce_microservice.Messaging.Publisher.Certain.{
  IsStored, nil_only_if_IsStored, stale_return_duplicates,
}
use go_commerce_microservice.Messaging.Retry.{delivery_attempt, retry, new_retry_policy}
use go_commerce_microservice.Messaging.Retry.Attempts.{
  fate, IsDeadLetter, failing_message_dead_lettered,
}
use go_commerce_microservice.Messaging.Retry.Safety.{Ending, original_kept, returned_copy_unseen}
use go_commerce_microservice.Messaging.Worker.{process}
use go_commerce_microservice.Messaging.Worker.Rows.{IsKeyed}
use go_commerce_microservice.Messaging.Worker.Delivered.{AreHonest}
use go_commerce_microservice.Messaging.Worker.Stored.{
  IsAtBroker, rabbit_turn, marked_only_if_stored,
}
use go_commerce_microservice.Messaging.Worker.Drained.{nth, IsMarked}
use go_commerce_microservice.Messaging.Worker.Apart.{failures_stay_apart}
use go_commerce_microservice.Order.Repository.{
  is_processed, confirm_order, settle_order, save_processed, reject_order,
}
use go_commerce_microservice.Order.Service.{
  event_payload, handle_confirm_order, handle_reject_order, handle_once, after_lookup,
}
use go_commerce_microservice.Order.Consumer
use go_commerce_microservice.Order.Consumer.{
  Handled, handle_stock_reserved, handle_stock_not_reserved, handle_delivery, with_event,
  with_message_id, with_order_id, after_handling, acknowledge,
}
use go_commerce_microservice.Order.Consumer.Acked.{
  IsKept, reserved_acked_only_if_IsKept, not_reserved_acked_only_if_IsKept,
}
use go_commerce_microservice.Inventory.Repository.{build_stock_event_payload}
use go_commerce_microservice.Inventory.Consumer.{read_request}
use go_commerce_microservice.Saga.{line_of, request_round_trip, answer_round_trip}
use go_commerce_microservice.Tests.Data.{
  uuids, order_faults, pen_order, one_order, event, two_pens, delivery, policy, wire,
}

abbrev idle : Link
idle = record { returns = waiting []; stored = [] }

abbrev table : Outbox
table = event ∷ []

published :
    (publish order_event_routing_key "commerce"
      (confirmed true)
      "ReserveStockRequested"
      malformed
      idle).0
    ≡ none
unfolding publish send settled after_reply await_return receive order_event_routing_key
published = refl

nil_only_if_IsStored_example :
    (key : String) × (order_event_routing_key "ReserveStockRequested" ≡ ok key)
    × IsStored "commerce" key malformed
        (confirmed true)
        idle
        (publish order_event_routing_key "commerce"
          (confirmed true)
          "ReserveStockRequested"
          malformed
          idle).1
nil_only_if_IsStored_example =
    nil_only_if_IsStored order_event_routing_key "commerce" (confirmed true) "ReserveStockRequested"
      malformed idle published

routed : order_event_routing_key "ReserveStockRequested" ≡ ok "order.created"
unfolding order_event_routing_key
routed = refl

stale_return_duplicates_example :
    let late : Link =
      (publish order_event_routing_key "commerce"
        (no_confirm (Error.sentinel Sentinel.deadline_exceeded) false)
        "ReserveStockRequested"
        malformed
        idle).1 in
    let second : Option Error × Link =
      publish order_event_routing_key "commerce"
        (confirmed true)
        "ReserveStockRequested"
        malformed
        late in
    let third : Option Error × Link =
      publish order_event_routing_key "commerce"
        (confirmed true)
        "ReserveStockRequested"
        malformed
        second.1 in
    let m : Sent = record {
      exchange = "commerce";
      routing_key = "order.created";
      payload = malformed;
    } in
    ¬ (second.0 ≡ none) × (third.0 ≡ none) × (third.1.stored ≡ m ∷ m ∷ [])
stale_return_duplicates_example =
    stale_return_duplicates order_event_routing_key "commerce" "ReserveStockRequested"
      "order.created" (Error.sentinel Sentinel.deadline_exceeded) malformed malformed idle refl
      routed

keyed : IsKeyed table
keyed = (((λ same. (refl, refl)), tt), tt)

honest : AreHonest (IsAtBroker order_event_routing_key "commerce") (table, idle)
honest = ((λ set. absurd (set refl)), tt)

marked_only_if_stored_example : AreHonest (IsAtBroker order_event_routing_key "commerce") (
    process fine 20
      (λ i. rabbit_turn order_event_routing_key "commerce" (confirmed true) fine fine 9)
      (table, idle))
marked_only_if_stored_example =
    marked_only_if_stored order_event_routing_key "commerce" fine 20 (λ i. confirmed true)
      (λ i. fine) (λ i. fine) (λ i. 9) (table, idle) keyed honest

-- The second message of the batch is refused by the broker.
abbrev replies : ℕ → BrokerReply
replies i = elim i [ zero ↦ confirmed true | suc j ↦ negative ]

none_late : (i : ℕ) (e : Error) → replies i ≢ no_confirm e false
none_late zero e h = absurd (ground arith)
none_late (suc i) e h = absurd (ground arith)

abbrev two_rows : Outbox
two_rows = event ∷ (record event { id = 32 }) ∷ []

picked_of_two : nth 0 (oldest_unprocessed 20 two_rows) ≡ some event
unfolding oldest_unprocessed order_by_time insert_by_time select_where
picked_of_two = refl

failures_stay_apart_example :
    IsMarked 31
      (process fine 20
        (λ i. rabbit_turn order_event_routing_key "commerce" (replies i) fine fine 9)
        (two_rows, idle)).0
failures_stay_apart_example =
    failures_stay_apart order_event_routing_key "commerce" 20 replies (λ i. fine) (λ i. fine)
      (λ i. 9) two_rows idle 0 event "order.created" refl none_late picked_of_two routed refl refl

third_attempt : policy.max_attempts ≡ delivery_attempt delivery.headers +ℤ pos 2
unfolding new_retry_policy delivery_attempt ◌+ℤ◌
third_attempt = refl

failing_message_dead_lettered_example :
    (last : _) × (fate 3 policy wire "processing failed" delivery ≡ some (2, last))
    × IsDeadLetter policy delivery last
unfolding new_retry_policy
failing_message_dead_lettered_example =
    failing_message_dead_lettered 2 3 policy wire "processing failed" delivery third_attempt
      (omega arith, omega arith) (omega arith)

original_kept_example :
    Ending wire
      (retry policy wire delivery "processing failed").1.1
      (retry policy wire delivery "processing failed").1.2
original_kept_example = original_kept policy wire delivery "processing failed"

returned_copy_unseen_example :
    retry policy (record wire { reply = confirmed false }) delivery "processing failed"
    ≡ retry policy (record wire { reply = confirmed true }) delivery "processing failed"
returned_copy_unseen_example = returned_copy_unseen policy wire delivery "processing failed"

request_round_trip_example :
    read_request uuids (event_payload uuids 30 pen_order)
    ≡ some (record { message_id = 30; order_id = 100; items = map line_of pen_order.items })
request_round_trip_example = request_round_trip uuids 30 pen_order (refl, tt)

abbrev reserved : Delivery
reserved = record delivery { body = build_stock_event_payload uuids 40 100 "" (two_pens ∷ []) }

abbrev not_reserved : Delivery
not_reserved = record delivery {
  body = build_stock_event_payload uuids 40 100 "none left" (two_pens ∷ []);
}

abbrev turn : Consumer.Turn
turn = record { faults = order_faults; wire = wire; now = 9; inbox_id = 50 }

answer_round_trip_example :
    (handle_stock_reserved uuids policy turn reserved one_order
      ≡ after_handling policy turn reserved
          (handle_confirm_order order_faults 9 50 100 40 reserved.body one_order))
    × (handle_stock_not_reserved uuids policy turn not_reserved one_order
        ≡ after_handling policy turn not_reserved
            (handle_reject_order order_faults 9 50 100 40 not_reserved.body one_order))
answer_round_trip_example =
    answer_round_trip uuids policy turn reserved not_reserved 40 100 "none left" (two_pens ∷ [])
      one_order (refl, tt) refl refl

reserved_acked : (handle_stock_reserved uuids policy turn reserved one_order).settlement ≡ acked
unfolding after_handling acknowledge handle_confirm_order handle_once after_lookup is_processed
    statement confirm_order settle_order save_processed any count_where insert_unique
reserved_acked =
    rw
      (answer_round_trip uuids policy turn reserved not_reserved 40 100 "none left" (two_pens ∷ [])
        one_order (refl, tt) refl refl).0
      refl

reserved_acked_only_if_IsKept_example :
    IsKept uuids
      (unmarshal event_of_fields reserved.body)
      policy
      reserved
      wire
      (handle_stock_reserved uuids policy turn reserved one_order)
reserved_acked_only_if_IsKept_example =
    reserved_acked_only_if_IsKept uuids policy turn reserved one_order reserved_acked

not_reserved_acked :
    (handle_stock_not_reserved uuids policy turn not_reserved one_order).settlement ≡ acked
unfolding after_handling acknowledge handle_reject_order handle_once after_lookup is_processed
    statement reject_order settle_order save_processed any count_where insert_unique
not_reserved_acked =
    rw
      (answer_round_trip uuids policy turn reserved not_reserved 40 100 "none left" (two_pens ∷ [])
        one_order (refl, tt) refl refl).1
      refl

not_reserved_acked_only_if_IsKept_example :
    IsKept uuids
      (unmarshal not_reserved_of_fields not_reserved.body)
      policy
      not_reserved
      wire
      (handle_stock_not_reserved uuids policy turn not_reserved one_order)
not_reserved_acked_only_if_IsKept_example =
    not_reserved_acked_only_if_IsKept uuids policy turn not_reserved one_order not_reserved_acked
