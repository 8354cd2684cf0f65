-- ===== src/Messaging/Worker/Apart.antt =====
-- outbox_worker.go at the RabbitMQ publisher: one message's failure and the others of its batch.
use go_commerce_microservice.Prelude.{
  ℕ, ◌≡◌, ◌≢◌, true, false, none, some, String, [], arith, inl, inr, refl,
}
use go_commerce_microservice.Error.{Error}
use go_commerce_microservice.Json.{Body}
use go_commerce_microservice.Sql.{Fault, fine, Result, ok, Result-cases}
use go_commerce_microservice.Outbox.{OutboxMessage, Outbox, oldest_unprocessed}
use go_commerce_microservice.Messaging.Delivery.{
  BrokerReply, not_sent, no_confirm, negative, confirmed,
}
use go_commerce_microservice.Messaging.Publisher.{
  waiting, Sent, Link, settled, after_reply, await_return, receive, put_return, send, publish,
}
use go_commerce_microservice.Messaging.Worker.{process}
use go_commerce_microservice.Messaging.Worker.Stored.{rabbit_turn}
use go_commerce_microservice.Messaging.Worker.Drained.{nth, IsMarked, process-marks}

-- No returned message waits for the publisher.
abbrev pub IsClear : Link → Type 0
IsClear l = l.returns ≡ waiting []

module _ (event_routing_key : String → Result String) (exchange : String) where
  -- Only a wait that ends early before a return leaves one behind.
  after_reply-IsClear :
      (reply : BrokerReply) (sent : Sent) (l : Link)
      → ((e : Error) → reply ≢ no_confirm e false)
      → IsClear l
      → IsClear (after_reply reply (settled reply sent l)).1
  unfolding after_reply settled await_return receive put_return
  after_reply-IsClear (not_sent e) sent l fair h = h
  after_reply-IsClear (no_confirm e true) sent l fair h = h
  after_reply-IsClear (no_confirm e false) sent l fair h = absurd (fair e refl)
  after_reply-IsClear negative sent l fair h = h
  after_reply-IsClear (confirmed true) sent l fair h = ground arith
  after_reply-IsClear (confirmed false) sent l fair h = ground arith

  publish-IsClear :
      (reply : BrokerReply) (event_type : String) (payload : Body) (l : Link)
      → ((e : Error) → reply ≢ no_confirm e false)
      → IsClear l
      → IsClear (publish event_routing_key exchange reply event_type payload l).1
  unfolding publish send
  publish-IsClear reply event_type payload l fair h =
      elim (Result-cases (event_routing_key event_type)) [
        | inl (key, e) ↦ rw e (
            after_reply-IsClear reply
              (record { exchange = exchange; routing_key = key; payload = payload }) l fair h)
        | inr (e, p) ↦ rw p h
      ]

  publish_nil :
      (event_type key : String) (payload : Body) (l : Link)
      → event_routing_key event_type ≡ ok key
      → IsClear l
      → (publish event_routing_key exchange (confirmed true) event_type payload l).0 ≡ none
  unfolding publish send after_reply settled await_return receive
  publish_nil event_type key payload l keyed h = ground arith

  -- At the RabbitMQ publisher, when the query of a tick answers and no return waits at its start: a
  -- message of the batch, at its position among the oldest unprocessed ones, whose event type has a
  -- routing key, which the broker stores and confirms and whose row's update is made, is marked at
  -- the end of the tick. The other messages of the batch may fail in every way but one: no wait
  -- ends early for a message that is then returned as unroutable.
  pub failures_stay_apart :
      (batch_size : ℕ) (replies : ℕ → BrokerReply) (marks bumps : ℕ → Fault) (clock : ℕ → ℕ)
      (table : Outbox) (l : Link) (n : ℕ) (m : OutboxMessage) (key : String)
      → IsClear l
      → ((i : ℕ) (e : Error) → replies i ≢ no_confirm e false)
      → nth n (oldest_unprocessed batch_size table) ≡ some m
      → event_routing_key m.event_type ≡ ok key
      → replies n ≡ confirmed true
      → marks n ≡ fine
      → IsMarked m.id
          (process fine batch_size
            (λ i. rabbit_turn event_routing_key exchange (replies i) (marks i) (bumps i) (clock i))
            (table, l)).0
  unfolding rabbit_turn
  failures_stay_apart batch_size replies marks bumps clock table l n m key clear fair there keyed
        stored marked =
      process-marks IsClear batch_size
        (λ i. rabbit_turn event_routing_key exchange (replies i) (marks i) (bumps i) (clock i))
        table l n m
        (λ j event_type payload l' h. publish-IsClear (replies j) event_type payload l' (fair j) h)
        clear there
        (record {
          publishes = λ l' h. rw stored (publish_nil m.event_type key m.payload l' keyed h);
          marks = marked;
        })
