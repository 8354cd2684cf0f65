-- ===== src/Messaging/Retry/Attempts.antt =====
-- The attempts of a message that always fails: retry_policy.go, over the redeliveries.
use text.Mathlib.Text.{◌==◌ as str_eq}
use go_commerce_microservice.Prelude.{
  ℕ, zero, suc, true, false, ◌+◌, ◌<◌, ◌≤◌, ◌≡◌, refl, Option, none, some, arith, ◌∙◌, String, leb,
  Bool, ◌&&◌, if◌then◌else◌, eq_iff,
}
use go_commerce_microservice.Prelude.Int.{
  ℤ, pos, negsuc, ◌+ℤ◌, ◌≤ℤ◌, leb_ℤ, to_int32_iff, IsInt32, int_laws, pos_part, neg_part,
}
use go_commerce_microservice.Messaging.Delivery.{
  HeaderValue, Delivery, Publishing, put, find-put, Entries,
}
use go_commerce_microservice.Messaging.Retry.{
  RetryPolicy, delivery_attempt_header, delivery_attempt, copy_headers, republish, retry_message,
  Wire, Disposition, retry, dead_letter, dead_letter_message, publish_then_ack,
}

-- The retry queue's time to live hands a message back to the source queue with its headers.
abbrev pub redelivered : Publishing → Delivery
redelivered p = record { headers = p.headers; properties = p.properties; body = p.body }

leb-true : (a b : ℕ) → a ≤ b → leb a b ≡ true
leb-true a b h = ground arith

leb-false : (a b : ℕ) → b < a → leb a b ≡ false
leb-false a b h = ground arith

-- Every delivery counts as attempt one at least.
pub delivery_attempt_pos : (d : Delivery) → pos 1 ≤ℤ delivery_attempt d.headers
unfolding delivery_attempt
delivery_attempt_pos d = ground arith

-- The header that a retry writes is the one that the next delivery reads.
header_read :
    (z : ℤ) (reason : String) (entries : Entries)
    → pos 1 ≤ℤ z
    → delivery_attempt (
        some (
          put "x-last-failure-reason"
            (HeaderValue.str reason)
            (put delivery_attempt_header (HeaderValue.int32 z) entries)))
      ≡ z
unfolding delivery_attempt
header_read z reason entries h = rw (find-put, find-put) (ground arith)

pub next_attempt :
    (p : RetryPolicy) (d : Delivery) (reason : String)
    → IsInt32 (delivery_attempt d.headers +ℤ pos 1)
    → delivery_attempt (redelivered (retry_message p d reason)).headers
      ≡ delivery_attempt d.headers +ℤ pos 1
unfolding retry_message republish
next_attempt p d reason h =
    let kept = (to_int32_iff (delivery_attempt d.headers +ℤ pos 1)).1 h in
    rw kept (
      header_read (delivery_attempt d.headers +ℤ pos 1) reason (copy_headers d.headers)
        (omega (int_laws, delivery_attempt_pos d)))

-- What a try adds to the life that follows it.
unfoldable pub after_try :
    Disposition → Publishing → Option (ℕ × Publishing) → Option (ℕ × Publishing)
after_try Disposition.dead_lettered sent later = some (0, sent)
after_try Disposition.retry_scheduled sent none = none
after_try Disposition.retry_scheduled sent (some (n, last)) = some (suc n, last)

-- The broker's default exchange routes a message to the queue that its routing key names.
unfoldable pub is_in_retry_queue : RetryPolicy → Publishing → Bool
is_in_retry_queue p sent = str_eq sent.exchange "" && str_eq sent.routing_key p.retry_queue

-- The life of a message whose handling always fails, while the broker takes every copy: how often
-- it is put on the retry queue before it is dead-lettered, and the message that then is sent. A
-- copy that goes anywhere but to the retry queue is not seen again.
unfoldable pub fate : ℕ → RetryPolicy → Wire → String → Delivery → Option (ℕ × Publishing)
fate zero p w reason d = none
fate (suc fuel) p w reason d =
    let (disposition, sent) = retry p w d reason in
    let later = fate fuel p w reason (redelivered sent.0) in
    after_try disposition sent.0 (if is_in_retry_queue p sent.0 then later else none)

after_dead_letter :
    (sent : Publishing) (later : Option (ℕ × Publishing))
    → after_try Disposition.dead_lettered sent later ≡ some (0, sent)
unfolding after_try
after_dead_letter sent later = refl

after_retry :
    (sent last : Publishing) (n : ℕ)
    → after_try Disposition.retry_scheduled sent (some (n, last)) ≡ some (suc n, last)
unfolding after_try
after_retry sent last n = refl

-- A dead letter of the delivery `d`.
pub record IsDeadLetter (p : RetryPolicy) (d : Delivery) (sent : Publishing) : Type 0 where
  pub to_exchange : sent.exchange ≡ p.dead_letter_exchange
  pub to_queue : sent.routing_key ≡ p.dead_letter_queue
  pub same_body : sent.body ≡ d.body

body-sent :
    (p : RetryPolicy) (w : Wire) (d : Delivery) (reason : String)
    → (retry p w d reason).1.0.body ≡ d.body
unfolding retry dead_letter publish_then_ack dead_letter_message retry_message republish
body-sent p w d reason = ground arith

retry_last :
    (p : RetryPolicy) (w : Wire) (d : Delivery) (reason : String)
    → leb_ℤ p.max_attempts (delivery_attempt d.headers) ≡ true
    → ((retry p w d reason).0 ≡ Disposition.dead_lettered)
      × IsDeadLetter p d (retry p w d reason).1.0
unfolding retry dead_letter publish_then_ack dead_letter_message republish
retry_last p w d reason h = (ground arith, ground arith)

retry_again :
    (p : RetryPolicy) (w : Wire) (d : Delivery) (reason : String)
    → leb_ℤ p.max_attempts (delivery_attempt d.headers) ≡ false
    → ((retry p w d reason).0 ≡ Disposition.retry_scheduled)
      × ((retry p w d reason).1.0 ≡ retry_message p d reason)
unfolding retry publish_then_ack
retry_again p w d reason h = (ground arith, ground arith)

dead_lettered_fate :
    (fuel : ℕ) (p : RetryPolicy) (w : Wire) (reason : String) (d : Delivery)
    → leb_ℤ p.max_attempts (delivery_attempt d.headers) ≡ true
    → fate (suc fuel) p w reason d ≡ some (0, (retry p w d reason).1.0)
unfolding fate
dead_lettered_fate fuel p w reason d h = rw (retry_last p w d reason h).0 (
    after_dead_letter (retry p w d reason).1.0 (
      if is_in_retry_queue p (retry p w d reason).1.0
      then fate fuel p w reason (redelivered (retry p w d reason).1.0)
      else none))

put_on_retry_queue :
    (p : RetryPolicy) (d : Delivery) (reason : String)
    → is_in_retry_queue p (retry_message p d reason) ≡ true
unfolding is_in_retry_queue retry_message republish
put_on_retry_queue p d reason = ground (arith, eq_iff p.retry_queue p.retry_queue)

retried_fate :
    (fuel n : ℕ) (last : Publishing) (p : RetryPolicy) (w : Wire) (reason : String) (d : Delivery)
    → leb_ℤ p.max_attempts (delivery_attempt d.headers) ≡ false
    → fate fuel p w reason (redelivered (retry_message p d reason)) ≡ some (n, last)
    → fate (suc fuel) p w reason d ≡ some (suc n, last)
unfolding fate
retried_fate fuel n last p w reason d h later =
    let (again, message) = retry_again p w d reason h in
    rw (again, message, put_on_retry_queue p d reason, later)
      (after_retry (retry_message p d reason) last n)

IsDeadLetter-body :
    (p : RetryPolicy) (d e : Delivery) (sent : Publishing)
    → e.body ≡ d.body
    → IsDeadLetter p e sent
    → IsDeadLetter p d sent
IsDeadLetter-body p d e sent same last = record {
  to_exchange = last.to_exchange;
  to_queue = last.to_queue;
  same_body = last.same_body ∙ same;
}

retried_body :
    (p : RetryPolicy) (d : Delivery) (reason : String)
    → (redelivered (retry_message p d reason)).body ≡ d.body
unfolding retry_message republish
retried_body p d reason = refl

limit_reached : (m a : ℤ) → m ≡ a +ℤ pos 0 → leb_ℤ m a ≡ true
limit_reached m a h =
    leb-true (pos_part m + neg_part a) (pos_part a + neg_part m) (rw h (omega int_laws))

limit_ahead : (n : ℕ) (m a : ℤ) → m ≡ a +ℤ pos (suc n) → leb_ℤ m a ≡ false
limit_ahead n m a h =
    leb-false (pos_part m + neg_part a) (pos_part a + neg_part m) (rw h (omega int_laws))

one_less : (n : ℕ) (m a : ℤ) → m ≡ a +ℤ pos (suc n) → m ≡ a +ℤ pos 1 +ℤ pos n
one_less n m a h = h ∙ omega int_laws

in_range : (n : ℕ) (m a : ℤ) → m ≡ a +ℤ pos (suc n) → pos 1 ≤ℤ a → IsInt32 m → IsInt32 (a +ℤ pos 1)
unfolding ◌+ℤ◌
in_range n m (pos a) h p fits = let wide = rw h at fits in ground (arith, wide)
in_range n m (negsuc a) h p fits = absurd (omega (arith, p))

-- While the broker takes every copy, a message whose handling always fails, on its `a`-th attempt
-- of at most `a + n`, where `a + n` is a 32-bit attempt limit, is put on the retry queue exactly
-- `n` more times, which hands it back each time, and then is sent to the dead-letter exchange and
-- queue with the body that it came with.
pub failing_message_dead_lettered :
    (n fuel : ℕ) (p : RetryPolicy) (w : Wire) (reason : String) (d : Delivery)
    → p.max_attempts ≡ delivery_attempt d.headers +ℤ pos n
    → IsInt32 p.max_attempts
    → n < fuel
    → (last : Publishing) × (fate fuel p w reason d ≡ some (n, last)) × IsDeadLetter p d last
failing_message_dead_lettered n zero p w reason d limit fits enough = absurd (omega arith)
failing_message_dead_lettered zero (suc fuel) p w reason d limit fits enough =
    let reached = limit_reached p.max_attempts (delivery_attempt d.headers) limit in
    (
      (retry p w d reason).1.0,
      dead_lettered_fate fuel p w reason d reached,
      (retry_last p w d reason reached).1,
    )
failing_message_dead_lettered (suc n) (suc fuel) p w reason d limit fits enough =
    let next = next_attempt p d reason (
      in_range n p.max_attempts (delivery_attempt d.headers) limit (delivery_attempt_pos d) fits) in
    let (last, later, is_last) =
      failing_message_dead_lettered n fuel p w reason (redelivered (retry_message p d reason))
        (rw next (one_less n p.max_attempts (delivery_attempt d.headers) limit)) fits
        (omega (arith, enough)) in
    (
      last,
      retried_fate fuel n last p w reason d
          (limit_ahead n p.max_attempts (delivery_attempt d.headers) limit) later,
      IsDeadLetter-body p d (redelivered (retry_message p d reason)) last (retried_body p d reason)
          is_last,
    )
