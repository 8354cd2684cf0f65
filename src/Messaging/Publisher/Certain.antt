-- ===== src/Messaging/Publisher/Certain.antt =====
-- What a successful call of the publisher shows.
use go_commerce_microservice.Prelude.{
  ◌≡◌, refl, String, true, false, Option, none, [], ◌∷◌, arith, inl, inr,
}
use go_commerce_microservice.Error.{Error}
use go_commerce_microservice.Json.{Body}
use go_commerce_microservice.Sql.{Result, ok, Result-cases}
use go_commerce_microservice.Messaging.Delivery.{
  BrokerReply, not_sent, no_confirm, negative, confirmed,
}
use go_commerce_microservice.Messaging.Publisher.{
  Returns, waiting, closed, Sent, Link, settled, await_return, after_reply, send, publish,
  put_return, receive,
}

-- The message was confirmed and stored, and no return was waiting.
pub record IsStored (exchange key : String) (payload : Body) (reply : BrokerReply)
    (before after : Link) : Type 0 where
  pub acknowledged : reply ≡ confirmed true
  pub nothing_returned : before.returns ≡ waiting []
  pub stores : after ≡ record before {
    stored = (record { exchange = exchange; routing_key = key; payload = payload }) ∷ before.stored;
  }

returned_is_received :
    (key : String) (r : Returns) (l : Link) → ¬ ((receive (put_return key r) l).0 ≡ none)
unfolding receive put_return
returned_is_received key (waiting []) l = ground arith
returned_is_received key (waiting (k ∷ ks)) l = ground arith
returned_is_received key closed l = ground arith

IsStored-when_ok :
    (reply : BrokerReply) (m : Sent) (l : Link)
    → (after_reply reply (settled reply m l)).0 ≡ none
    → IsStored m.exchange m.routing_key m.payload reply l (after_reply reply (settled reply m l)).1
unfolding after_reply settled await_return
IsStored-when_ok (not_sent e) m l h = absurd (ground arith)
IsStored-when_ok (no_confirm e routed) m l h = absurd (ground arith)
IsStored-when_ok negative m l h = absurd (ground arith)
IsStored-when_ok (confirmed true) m l h = ground arith
IsStored-when_ok (confirmed false) m l h =
    absurd (returned_is_received m.routing_key l.returns (settled (confirmed false) m l) h)

publish_keyed :
    (event_routing_key : String → Result String) (exchange : String) (reply : BrokerReply)
    (event_type : String) (payload : Body) (l : Link) (key : String)
    → event_routing_key event_type ≡ ok key
    → publish event_routing_key exchange reply event_type payload l
      ≡ after_reply reply
          (settled reply (record { exchange = exchange; routing_key = key; payload = payload }) l)
unfolding publish send
publish_keyed event_routing_key exchange reply event_type payload l key h = rw h refl

-- `Publish` returns nil only if the event has a routing key, the broker has confirmed the message
-- and stored it in a queue under that key, and the buffer of returns was empty: the call then adds
-- exactly this message to what is stored.
pub nil_only_if_IsStored :
    (event_routing_key : String → Result String) (exchange : String) (reply : BrokerReply)
    (event_type : String) (payload : Body) (l : Link)
    → (publish event_routing_key exchange reply event_type payload l).0 ≡ none
    → (key : String) × (event_routing_key event_type ≡ ok key)
      × IsStored exchange key payload reply l
          (publish event_routing_key exchange reply event_type payload l).1
unfolding publish
nil_only_if_IsStored event_routing_key exchange reply event_type payload l h =
    elim (Result-cases (event_routing_key event_type)) [
      | inl (key, e) ↦
          let sent = publish_keyed event_routing_key exchange reply event_type payload l key e in
          let m : Sent = record { exchange = exchange; routing_key = key; payload = payload } in
          (key, e, rw sent (IsStored-when_ok reply m l (rw sent at h)))
      | inr (e, p) ↦ absurd (ground arith)
    ]

-- A confirmed message that follows a publishing whose wait ended early and which was returned as
-- unroutable is stored, and yet `Publish` reports an error for it, the earlier message's. Published
-- once more, as the outbox worker does after an error, it is stored a second time, and the call
-- returns nil.
pub stale_return_duplicates :
    (event_routing_key : String → Result String) (exchange event_type key : String) (e : Error)
    (payload first : Body) (l : Link)
    → l.returns ≡ waiting []
    → event_routing_key event_type ≡ ok key
    → let m : Sent = record { exchange = exchange; routing_key = key; payload = payload } in
      let late : Link =
        (publish event_routing_key exchange (no_confirm e false) event_type first l).1 in
      let second : Option Error × Link =
        publish event_routing_key exchange (confirmed true) event_type payload late in
      let third : Option Error × Link =
        publish event_routing_key exchange (confirmed true) event_type payload second.1 in
      ¬ (second.0 ≡ none) × (third.0 ≡ none) × (third.1.stored ≡ m ∷ m ∷ l.stored)
unfolding publish send settled after_reply receive put_return await_return
stale_return_duplicates event_routing_key exchange event_type key e payload first l h keyed =
    let late =
      publish_keyed event_routing_key exchange (no_confirm e false) event_type first l key keyed in
    ground (arith, late, h, keyed)
