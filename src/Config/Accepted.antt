-- ===== src/Config/Accepted.antt =====
-- What the order service's consumers do with options that it accepts.
use go_commerce_microservice.Prelude.{ℕ, zero, suc, ◌≡◌, refl, none, some, String, arith, ◌∙◌}
use go_commerce_microservice.Prelude.Int.{ℤ, pos, negsuc, ◌≤ℤ◌, ◌+ℤ◌, IsInt32, int_laws}
use go_commerce_microservice.Messaging.Delivery.{Delivery, Publishing}
use go_commerce_microservice.Messaging.Retry.{RetryPolicy, Wire, delivery_attempt, new_retry_policy}
use go_commerce_microservice.Messaging.Retry.Attempts.{
  fate, IsDeadLetter, failing_message_dead_lettered,
}
use go_commerce_microservice.Config.{require_all, positive_all}
use go_commerce_microservice.Config.Checks.{or_else-none, positive_all-none}
use go_commerce_microservice.Config.Brokers.{
  OrderRabbitmqOptions, order_rabbitmq_required, order_rabbitmq_positive,
  validate_order_rabbitmq_options,
}

-- The retry policies that `provideStockReservedConsumer` and `provideStockNotReservedConsumer` of
-- app/module.go give their consumers.
unfoldable pub provided_stock_reserved_policy : OrderRabbitmqOptions → RetryPolicy
provided_stock_reserved_policy o =
    new_retry_policy o.consumer_exchange "stock.reserved" o.stock_reserved_queue
      o.consumer_max_attempts

unfoldable pub provided_stock_not_reserved_policy : OrderRabbitmqOptions → RetryPolicy
provided_stock_not_reserved_policy o =
    new_retry_policy o.consumer_exchange "stock.notreserved" o.stock_not_reserved_queue
      o.consumer_max_attempts

some_attempts :
    (o : OrderRabbitmqOptions)
    → validate_order_rabbitmq_options o ≡ none
    → pos 1 ≤ℤ o.consumer_max_attempts
unfolding validate_order_rabbitmq_options
some_attempts o h =
    let (texts, numbers) =
      or_else-none (require_all "rabbitMQOptions" (order_rabbitmq_required o))
        (positive_all "rabbitMQOptions" (order_rabbitmq_positive o)) h in
    let (a, (b, (c, (d, (e, (f, (attempts, end))))))) =
      positive_all-none "rabbitMQOptions" (order_rabbitmq_positive o) numbers in
    attempts

one_and_more : (z : ℤ) → pos 1 ≤ℤ z → (n : ℕ) × (z ≡ pos (suc n))
one_and_more (pos zero) h = absurd (omega (arith, h))
one_and_more (pos (suc n)) h = (n, refl)
one_and_more (negsuc n) h = absurd (omega (arith, h))

one_plus : (a : ℤ) (n : ℕ) → a ≡ pos 1 → pos (suc n) ≡ a +ℤ pos n
unfolding ◌+ℤ◌
one_plus a n h = rw h (omega int_laws)

-- With options that the order service accepts and an attempt limit of 32 bits, while the broker
-- takes every copy, a first delivery of a message whose handling always fails is retried one time
-- less than the limit says and then sent to the dead-letter queue, by either consumer.
pub accepted_options-IsDeadLetter :
    (o : OrderRabbitmqOptions) (w : Wire) (reason : String) (d : Delivery)
    → validate_order_rabbitmq_options o ≡ none
    → IsInt32 o.consumer_max_attempts
    → delivery_attempt d.headers ≡ pos 1
    → (n : ℕ) × (o.consumer_max_attempts ≡ pos (suc n))
      × ((last : Publishing) × (fate (suc n) (provided_stock_reserved_policy o) w reason d
            ≡ some (n, last))
          × IsDeadLetter (provided_stock_reserved_policy o) d last)
      × ((last : Publishing) × (fate (suc n) (provided_stock_not_reserved_policy o) w reason d
            ≡ some (n, last))
          × IsDeadLetter (provided_stock_not_reserved_policy o) d last)
unfolding provided_stock_reserved_policy provided_stock_not_reserved_policy new_retry_policy
accepted_options-IsDeadLetter o w reason d accepted fits first =
    let (n, limit) = one_and_more o.consumer_max_attempts (some_attempts o accepted) in
    let sum : o.consumer_max_attempts ≡ delivery_attempt d.headers +ℤ pos n =
      limit ∙ one_plus (delivery_attempt d.headers) n first in
    (
      n,
      limit,
      failing_message_dead_lettered n (suc n) (provided_stock_reserved_policy o) w reason d sum fits
          (omega arith),
      failing_message_dead_lettered n (suc n) (provided_stock_not_reserved_policy o) w reason d sum
          fits (omega arith),
    )
