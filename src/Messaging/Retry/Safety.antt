-- ===== src/Messaging/Retry/Safety.antt =====
-- How the original delivery is left when its copy is sent to the retry or the dead-letter queue.
use go_commerce_microservice.Prelude.{
  ◌≡◌, refl, Bool, true, false, Option, none, some, arith, String, Bool-cases, inl, inr, ◌⊎◌,
}
use go_commerce_microservice.Prelude.Int.{leb_ℤ}
use go_commerce_microservice.Error.{Error}
use go_commerce_microservice.Messaging.Delivery.{
  Delivery, Publishing, BrokerReply, not_sent, no_confirm, negative, confirmed, Settlement, acked,
  requeued, open_,
}
use go_commerce_microservice.Messaging.Retry.{
  RetryPolicy, Wire, publish_error, settle_failed, settle_published, publish_then_ack, dead_letter,
  retry, delivery_attempt, retry_message, dead_letter_message, republish,
}

-- How a call can end: the original is acknowledged after a confirm, or left with the channel when
-- that `Ack` fails; without a confirm it is requeued, or left with the channel when `Nack` fails.
pub data Ending (w : Wire) : Option Error → Settlement → Type 0 where
  done : {routed : Bool} → w.reply ≡ confirmed routed → w.ack_error ≡ none → Ending w none acked
  unsettled :
      {routed : Bool} {e : Error}
      → w.reply ≡ confirmed routed
      → w.ack_error ≡ some e
      → Ending w (some (Error.wrapped "acknowledge original message" e)) open_
  kept :
      {e : Error}
      → publish_error w.reply ≡ some e
      → w.nack_error ≡ none
      → Ending w (some e) requeued
  stuck :
      {e nack : Error}
      → publish_error w.reply ≡ some e
      → w.nack_error ≡ some nack
      → Ending w (some (Error.joined e (Error.wrapped "requeue original message" nack))) open_

-- An acknowledged original has a confirmed copy.
pub acked_after_confirm :
    {w : Wire} {e : Option Error} {s : Settlement}
    → Ending w e s
    → s ≡ acked
    → (routed : Bool) × (w.reply ≡ confirmed routed)
acked_after_confirm (Ending.done {routed} h ack) same = (routed, h)
acked_after_confirm (Ending.unsettled h ack) same = absurd (ground arith)
acked_after_confirm (Ending.kept h nack) same = absurd (ground arith)
acked_after_confirm (Ending.stuck h nack) same = absurd (ground arith)

abbrev wire_of : BrokerReply → Option Error → Option Error → String → Wire
wire_of reply ack nack now = record { reply = reply; ack_error = ack; nack_error = nack; now = now }

Ending-of :
    (reply : BrokerReply) (ack nack : Option Error) (now : String) (p : Publishing)
    → let sent = publish_then_ack (wire_of reply ack nack now) p in
      Ending (wire_of reply ack nack now) sent.1 sent.2
unfolding publish_then_ack publish_error settle_failed settle_published
Ending-of (not_sent e) ack none now p = Ending.kept refl refl
Ending-of (not_sent e) ack (some n) now p = Ending.stuck refl refl
Ending-of (no_confirm e stored) ack none now p = Ending.kept refl refl
Ending-of (no_confirm e stored) ack (some n) now p = Ending.stuck refl refl
Ending-of negative ack none now p = Ending.kept refl refl
Ending-of negative ack (some n) now p = Ending.stuck refl refl
Ending-of (confirmed routed) none nack now p = Ending.done {routed = routed} refl refl
Ending-of (confirmed routed) (some a) nack now p = Ending.unsettled {routed = routed} refl refl

pub publish_then_ack-Ending :
    (w : Wire) (p : Publishing) → Ending w (publish_then_ack w p).1 (publish_then_ack w p).2
publish_then_ack-Ending w p = Ending-of w.reply w.ack_error w.nack_error w.now p

pub dead_letter-Ending :
    (p : RetryPolicy) (w : Wire) (d : Delivery) (reason : String)
    → Ending w (dead_letter p w d reason).1 (dead_letter p w d reason).2
unfolding dead_letter
dead_letter-Ending p w d reason = publish_then_ack-Ending w (dead_letter_message p w.now d reason)

-- A copy of a delivery that goes to the retry queue, through the default exchange, or to the
-- dead-letter exchange and queue.
pub record IsCopy (p : RetryPolicy) (d : Delivery) (copy : Publishing) : Type 0 where
  pub same_body : copy.body ≡ d.body
  pub same_properties : copy.properties ≡ d.properties
  pub kept_on_disk : copy.persistent ≡ true
  pub towards :
      ((copy.exchange ≡ "") × (copy.routing_key ≡ p.retry_queue))
      ⊎ ((copy.exchange ≡ p.dead_letter_exchange) × (copy.routing_key ≡ p.dead_letter_queue))

sent_as_given : (w : Wire) (m : Publishing) → (publish_then_ack w m).0 ≡ m
unfolding publish_then_ack
sent_as_given w m = ground arith

dead_letter_message-IsCopy :
    (p : RetryPolicy) (now : String) (d : Delivery) (reason : String)
    → IsCopy p d (dead_letter_message p now d reason)
unfolding dead_letter_message republish
dead_letter_message-IsCopy p now d reason = record {
  same_body = refl;
  same_properties = refl;
  kept_on_disk = refl;
  towards = inr (refl, refl);
}

pub dead_letter-IsCopy :
    (p : RetryPolicy) (w : Wire) (d : Delivery) (reason : String)
    → IsCopy p d (dead_letter p w d reason).0
unfolding dead_letter
dead_letter-IsCopy p w d reason =
    rw (sent_as_given w (dead_letter_message p w.now d reason))
      (dead_letter_message-IsCopy p w.now d reason)

retry_message-IsCopy :
    (p : RetryPolicy) (d : Delivery) (reason : String) → IsCopy p d (retry_message p d reason)
unfolding retry_message republish
retry_message-IsCopy p d reason = record {
  same_body = refl;
  same_properties = refl;
  kept_on_disk = refl;
  towards = inl (refl, refl);
}

pub retry-IsCopy :
    (p : RetryPolicy) (w : Wire) (d : Delivery) (reason : String)
    → IsCopy p d (retry p w d reason).1.0
unfolding retry
retry-IsCopy p w d reason = elim (Bool-cases (leb_ℤ p.max_attempts (delivery_attempt d.headers))) [
  | inl e ↦ rw e (dead_letter-IsCopy p w d reason)
  | inr e ↦ rw (e, sent_as_given w (retry_message p d reason)) (retry_message-IsCopy p d reason)
]

-- A retry of a failed delivery, which dead-letters the last attempt, ends in one of four ways: the
-- original is acknowledged without an error, after the broker has confirmed the copy; it stays with
-- the channel after that, when its `Ack` fails; without a confirm it is requeued and the publishing
-- error is returned; or it stays with the channel, when the `Nack` fails too.
pub original_kept :
    (p : RetryPolicy) (w : Wire) (d : Delivery) (reason : String)
    → Ending w (retry p w d reason).1.1 (retry p w d reason).1.2
unfolding retry dead_letter
original_kept p w d reason = elim (Bool-cases (leb_ℤ p.max_attempts (delivery_attempt d.headers))) [
  | inl e ↦ rw e (publish_then_ack-Ending w (dead_letter_message p w.now d reason))
  | inr e ↦ rw e (publish_then_ack-Ending w (retry_message p d reason))
]

-- A copy that the broker confirms but could route to no queue is treated as one that it stored: the
-- retry policy returns the same disposition and error, and settles the original in the same way.
pub returned_copy_unseen :
    (p : RetryPolicy) (w : Wire) (d : Delivery) (reason : String)
    → retry p (record w { reply = confirmed false }) d reason
      ≡ retry p (record w { reply = confirmed true }) d reason
unfolding retry dead_letter publish_then_ack publish_error settle_published
returned_copy_unseen p w d reason = ground arith
