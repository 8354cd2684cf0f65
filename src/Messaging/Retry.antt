-- ===== src/Messaging/Retry.antt =====
-- services/order-service/internal/adapter/messaging/retry_policy.go: a failed delivery is sent to
-- a retry queue, or to the dead-letter queue once it has been attempted often enough.
pub mod Attempts
pub mod Safety
use Prim.Native.String.{String, ◌++◌ as concat}
use go_commerce_microservice.Prelude.{
  ℕ, ◌+◌, Bool, true, false, Option, none, some, List, [], ◌∷◌, if◌then◌else◌,
}
use go_commerce_microservice.Prelude.Int.{ℤ, pos, ◌+ℤ◌, leb_ℤ, to_int32}
use go_commerce_microservice.Error.{Error}
use go_commerce_microservice.Messaging.Delivery.{
  HeaderValue, Entries, Table, find, put, Delivery, Publishing, BrokerReply, not_sent, no_confirm,
  negative, confirmed, Settlement, acked, requeued, open_,
}

abbrev pub delivery_attempt_header : String
delivery_attempt_header = "x-delivery-attempt"

pub data Disposition : Type 0 where
  retry_scheduled : Disposition
  dead_lettered : Disposition

pub record RetryPolicy : Type 0 where
  pub source_exchange : String
  pub source_routing_key : String
  pub retry_queue : String
  pub dead_letter_exchange : String
  pub dead_letter_queue : String
  pub max_attempts : ℤ

unfoldable pub new_retry_policy : String → String → String → ℤ → RetryPolicy
new_retry_policy source_exchange source_routing_key queue_name max_attempts = record {
  source_exchange = source_exchange;
  source_routing_key = source_routing_key;
  retry_queue = concat queue_name ".retry";
  dead_letter_exchange = concat source_exchange ".dead-letter";
  dead_letter_queue = concat queue_name ".dlq";
  max_attempts = max_attempts;
}

max_one : ℤ → ℤ
max_one z = if leb_ℤ (pos 1) z then z else pos 1

attempt_of : Option HeaderValue → ℤ
unfolding max_one
attempt_of (some (HeaderValue.int z)) = max_one z
attempt_of (some (HeaderValue.int8 z)) = max_one z
attempt_of (some (HeaderValue.int16 z)) = max_one z
attempt_of (some (HeaderValue.int32 z)) = max_one z
attempt_of (some (HeaderValue.int64 z)) = max_one z
attempt_of _ = pos 1

unfoldable pub delivery_attempt : Table → ℤ
unfolding attempt_of
delivery_attempt none = pos 1
delivery_attempt (some entries) = attempt_of (find delivery_attempt_header entries)

unfoldable pub copy_headers : Table → Entries
copy_headers none = []
copy_headers (some entries) = entries

unfoldable pub republish : Delivery → String → String → Entries → Publishing
republish d exchange routing_key headers = record {
  exchange = exchange;
  routing_key = routing_key;
  persistent = true;
  headers = some headers;
  properties = d.properties;
  body = d.body;
}

-- The error that the reply to a publishing is turned into.
unfoldable pub publish_error : BrokerReply → Option Error
publish_error (not_sent e) = some e
publish_error (no_confirm e stored) = some e
publish_error negative =
    some (Error.message "RabbitMQ negatively acknowledged retry or dead-letter message")
publish_error (confirmed routed) = none

-- The environment of one call: the broker's reply, the errors of `Ack` and `Nack`, the clock.
pub record Wire : Type 0 where
  pub reply : BrokerReply
  pub ack_error : Option Error
  pub nack_error : Option Error
  pub now : String

unfoldable pub settle_failed : Wire → Error → Option Error × Settlement
settle_failed w e = elim w.nack_error [
  | none ↦ (some e, requeued)
  | some nack ↦ (some (Error.joined e (Error.wrapped "requeue original message" nack)), open_)
]

unfoldable pub settle_published : Wire → Option Error × Settlement
settle_published w = elim w.ack_error [
  | none ↦ (none, acked)
  | some ack ↦ (some (Error.wrapped "acknowledge original message" ack), open_)
]

-- What was sent, the error returned, and how the original delivery is left.
abbrev pub Sent : Type 0
Sent = Publishing × Option Error × Settlement

unfoldable pub publish_then_ack : Wire → Publishing → Sent
unfolding publish_error settle_failed settle_published
publish_then_ack w p = elim (publish_error w.reply) [
  | some e ↦ (p, (settle_failed w e).0, (settle_failed w e).1)
  | none ↦ (p, (settle_published w).0, (settle_published w).1)
]

unfoldable pub dead_letter_message : RetryPolicy → String → Delivery → String → Publishing
dead_letter_message p now d reason = republish d p.dead_letter_exchange p.dead_letter_queue (
    put "x-dead-lettered-at" (HeaderValue.str now) (
      put "x-dead-letter-reason" (HeaderValue.str reason) (
        put delivery_attempt_header (HeaderValue.int32 (to_int32 (delivery_attempt d.headers)))
          (copy_headers d.headers))))

unfoldable pub retry_message : RetryPolicy → Delivery → String → Publishing
retry_message p d reason = republish d "" p.retry_queue (
    put "x-last-failure-reason" (HeaderValue.str reason) (
      put delivery_attempt_header
        (HeaderValue.int32 (to_int32 (delivery_attempt d.headers +ℤ pos 1)))
        (copy_headers d.headers)))

unfoldable pub dead_letter : RetryPolicy → Wire → Delivery → String → Sent
dead_letter p w d reason = publish_then_ack w (dead_letter_message p w.now d reason)

unfoldable pub retry : RetryPolicy → Wire → Delivery → String → Disposition × Sent
retry p w d reason =
    if leb_ℤ p.max_attempts (delivery_attempt d.headers)
    then (Disposition.dead_lettered, dead_letter p w d reason)
    else (Disposition.retry_scheduled, publish_then_ack w (retry_message p d reason))
