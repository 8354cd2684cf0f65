-- ===== src/Messaging/Worker/Stored.antt =====
-- The RabbitMQ publisher as the worker's publisher.
use go_commerce_microservice.Prelude.{
  ℕ, ◌≡◌, refl, true, false, none, String, List, [], ◌∷◌, ◌⊎◌, inl, inr,
}
use go_commerce_microservice.Json.{Body}
use go_commerce_microservice.Sql.{Fault, Result, ok, err}
use go_commerce_microservice.Outbox.{Outbox}
use go_commerce_microservice.Messaging.Delivery.{
  BrokerReply, not_sent, no_confirm, negative, confirmed,
}
use go_commerce_microservice.Messaging.Publisher.{
  Sent, Link, Returns, waiting, closed, settled, await_return, receive, after_reply, send, publish,
}
use go_commerce_microservice.Messaging.Publisher.Certain.{nil_only_if_IsStored}
use go_commerce_microservice.Messaging.Worker.{Turn, process}
use go_commerce_microservice.Messaging.Worker.Rows.{IsKeyed}
use go_commerce_microservice.Messaging.Worker.Delivered.{
  IsReliable, AreHonest, marked_only_if_delivered,
}

abbrev pub Holds : Sent → List Sent → Type 0
Holds m [] = ⊥
Holds m (n ∷ ns) = (n ≡ m) ⊎ Holds m ns

module _ (event_routing_key : String → Result String) (exchange : String) where
  -- The broker has stored the event under its routing key.
  pub record IsAtBroker (event_type : String) (payload : Body) (l : Link) : Type 0 where
    pub key : String
    pub routed : event_routing_key event_type ≡ ok key
    pub held : Holds (record { exchange = exchange; routing_key = key; payload = payload }) l.stored

  pub after_reply-stored :
      (reply : BrokerReply) (l : Link) → (after_reply reply l).1.stored ≡ l.stored
  unfolding after_reply await_return
  after_reply-stored (not_sent e) l = refl
  after_reply-stored (no_confirm e routed) l = refl
  after_reply-stored negative l = refl
  after_reply-stored (confirmed routed) l = go l.returns
    where
      go : (r : Returns) → (receive r l).1.stored ≡ l.stored
      go (waiting []) = refl
      go (waiting (k ∷ ks)) = refl
      go closed = refl

  holds-settled :
      (reply : BrokerReply) (n m : Sent) (l : Link)
      → Holds n l.stored
      → Holds n (settled reply m l).stored
  unfolding settled
  holds-settled (not_sent e) n m l h = h
  holds-settled (no_confirm e true) n m l h = inr h
  holds-settled (no_confirm e false) n m l h = h
  holds-settled negative n m l h = h
  holds-settled (confirmed true) n m l h = inr h
  holds-settled (confirmed false) n m l h = h

  holds-send :
      (found : Result String) (reply : BrokerReply) (n : Sent) (payload : Body) (l : Link)
      → Holds n l.stored
      → Holds n (send found exchange reply payload l).1.stored
  unfolding send
  holds-send (err e) reply n payload l h = h
  holds-send (ok key) reply n payload l h =
      let m : Sent = record { exchange = exchange; routing_key = key; payload = payload } in
      rw (after_reply-stored reply (settled reply m l)) (holds-settled reply n m l h)

  publish_delivers :
      (reply : BrokerReply) (event_type : String) (payload : Body) (l : Link)
      → (publish event_routing_key exchange reply event_type payload l).0 ≡ none
      → IsAtBroker event_type payload
          (publish event_routing_key exchange reply event_type payload l).1
  publish_delivers reply event_type payload l h =
      let (key, keyed, stored) =
        nil_only_if_IsStored event_routing_key exchange reply event_type payload l h in
      record { key = key; routed = keyed; held = rw stored.stores (inl refl) }

  publish_keeps :
      (reply : BrokerReply) (event_type : String) (payload : Body) (l : Link) (other : String)
      (body : Body)
      → IsAtBroker other body l
      → IsAtBroker other body (publish event_routing_key exchange reply event_type payload l).1
  unfolding publish
  publish_keeps reply event_type payload l other body at =
      let m : Sent = record { exchange = exchange; routing_key = at.key; payload = body } in
      record {
        key = at.key;
        routed = at.routed;
        held = holds-send (event_routing_key event_type) reply m payload l at.held;
      }

  pub publish-IsReliable :
      (reply : BrokerReply) → IsReliable IsAtBroker (publish event_routing_key exchange reply)
  publish-IsReliable reply = record {
    delivers = publish_delivers reply;
    keeps = publish_keeps reply;
  }

  -- A message's turn at the RabbitMQ publisher.
  unfoldable pub rabbit_turn : BrokerReply → Fault → Fault → ℕ → Turn Link
  rabbit_turn reply mark_fault bump_fault now = record {
    publish = publish event_routing_key exchange reply;
    mark_fault = mark_fault;
    bump_fault = bump_fault;
    now = now;
  }

  -- In an outbox whose rows of one id hold one event, whatever the broker replies and whichever
  -- statements fail, every tick of the worker keeps this: each row that is marked as processed is
  -- stored by the broker, under the routing key of its event type and with its payload.
  pub marked_only_if_stored :
      (find_fault : Fault) (batch_size : ℕ) (replies : ℕ → BrokerReply) (marks bumps : ℕ → Fault)
      (clock : ℕ → ℕ) (s : Outbox × Link)
      → IsKeyed s.0
      → AreHonest IsAtBroker s
      → AreHonest IsAtBroker (
          process find_fault batch_size
            (λ i. rabbit_turn (replies i) (marks i) (bumps i) (clock i))
            s)
  unfolding rabbit_turn
  marked_only_if_stored find_fault batch_size replies marks bumps clock s keyed h =
      marked_only_if_delivered IsAtBroker find_fault batch_size
        (λ i. rabbit_turn (replies i) (marks i) (bumps i) (clock i)) s
        (λ i. publish-IsReliable (replies i)) keyed h
