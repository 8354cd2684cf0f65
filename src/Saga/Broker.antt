-- ===== src/Saga/Broker.antt =====
-- What the broker stores comes from the rows of an outbox.
use go_commerce_microservice.Prelude.{
  ℕ, suc, ◌≡◌, refl, true, false, Option, none, some, List, [], ◌∷◌, All, String,
}
use go_commerce_microservice.Error.{Error}
use go_commerce_microservice.External.{Uuid}
use go_commerce_microservice.Json.{Body}
use go_commerce_microservice.Sql.{Fault, Result, ok, err}
use go_commerce_microservice.Outbox.{OutboxMessage, Outbox, find_unprocessed}
use go_commerce_microservice.Messaging.Delivery.{
  BrokerReply, not_sent, no_confirm, negative, confirmed,
}
use go_commerce_microservice.Messaging.Publisher.{Sent, Link, settled, send, publish}
use go_commerce_microservice.Messaging.Worker.{
  Turn, after_publish, publish_one, publish_all, after_find, process,
}
use go_commerce_microservice.Messaging.Worker.Rows.{All-oldest, All-map, found_is}
use go_commerce_microservice.Messaging.Worker.Stored.{after_reply-stored, rabbit_turn}
use go_commerce_microservice.Saga.Events.{Each}

module _ (event_routing_key : String → Result String) (exchange : String)
    (P : Uuid → String → Body → Type 0) where
  -- A stored message is that of an event, under the key of its type.
  pub record IsGenuine (m : Sent) : Type 0 where
    pub id : Uuid
    pub event_type : String
    pub routed : event_routing_key event_type ≡ ok m.routing_key
    pub event : P id event_type m.payload

  abbrev pub AreGenuine : Link → Type 0
  AreGenuine l = All IsGenuine l.stored

  settled-AreGenuine :
      (reply : BrokerReply) (m : Sent) (l : Link)
      → IsGenuine m
      → AreGenuine l
      → AreGenuine (settled reply m l)
  unfolding settled
  settled-AreGenuine (not_sent e) m l g h = h
  settled-AreGenuine (no_confirm e true) m l g h = (g, h)
  settled-AreGenuine (no_confirm e false) m l g h = h
  settled-AreGenuine negative m l g h = h
  settled-AreGenuine (confirmed true) m l g h = (g, h)
  settled-AreGenuine (confirmed false) m l g h = h

  send-AreGenuine :
      (found : Result String) (reply : BrokerReply) (id : Uuid) (event_type : String)
      (payload : Body) (l : Link)
      → event_routing_key event_type ≡ found
      → P id event_type payload
      → AreGenuine l
      → AreGenuine (send found exchange reply payload l).1
  unfolding send
  send-AreGenuine (err e) reply id event_type payload l k p h = h
  send-AreGenuine (ok key) reply id event_type payload l k p h =
      let m : Sent = record { exchange = exchange; routing_key = key; payload = payload } in
      let g : IsGenuine m = record { id = id; event_type = event_type; routed = k; event = p } in
      rw (after_reply-stored event_routing_key exchange reply (settled reply m l))
        (settled-AreGenuine reply m l g h)

  after_publish-stored :
      {L : Type 0} (turn : Turn L) (m : OutboxMessage) (table : Outbox) (reply : Option Error)
      (l : L)
      → (after_publish turn m table (reply, l)).1 ≡ l
  unfolding after_publish
  after_publish-stored turn m table none l = refl
  after_publish-stored turn m table (some e) l = refl

  module _ (replies : ℕ → BrokerReply) (marks bumps : ℕ → Fault) (clock : ℕ → ℕ) where
    abbrev turns : ℕ → Turn Link
    turns i = rabbit_turn event_routing_key exchange (replies i) (marks i) (bumps i) (clock i)

    publish_all-AreGenuine :
        (i : ℕ) (ms : List OutboxMessage) (s : Outbox × Link)
        → Each P ms
        → AreGenuine s.1
        → AreGenuine (publish_all turns i ms s).1
    unfolding publish_all publish_one rabbit_turn publish
    publish_all-AreGenuine i [] s ps h = h
    publish_all-AreGenuine i (m ∷ ms) (table, l) (p, ps) h =
        let (reply, l') = (turns i).publish m.event_type m.payload l in
        publish_all-AreGenuine (suc i) ms (after_publish (turns i) m table (reply, l')) ps (
          rw (after_publish-stored (turns i) m table reply l') (
            send-AreGenuine (event_routing_key m.event_type) (replies i) m.aggregate_id m.event_type
              m.payload l refl p h))

    after_find-AreGenuine :
        (found : Result Outbox) (s : Outbox × Link)
        → ((ms : Outbox) → found ≡ ok ms → Each P ms)
        → AreGenuine s.1
        → AreGenuine (after_find turns found s).1
    unfolding after_find
    after_find-AreGenuine (err e) s ps h = h
    after_find-AreGenuine (ok ms) s ps h = publish_all-AreGenuine 0 ms s (ps ms refl) h

    pub process-AreGenuine :
        (fault : Fault) (n : ℕ) (s : Outbox × Link)
        → Each P s.0
        → AreGenuine s.1
        → AreGenuine (process fault n turns s).1
    unfolding process
    process-AreGenuine fault n (table, l) ps h =
        after_find-AreGenuine (find_unprocessed fault n table).0 (table, l)
          (λ ms found.
            rw (found_is fault n table ms found)
              (All-oldest (λ m. P m.aggregate_id m.event_type m.payload) n table ps))
          h

-- Messages stay genuine when the events that they stand for stay.
pub AreGenuine-map :
    (event_routing_key : String → Result String) (exchange : String)
    (P Q : Uuid → String → Body → Type 0)
    → ((id : Uuid) (event_type : String) (payload : Body)
        → P id event_type payload
        → Q id event_type payload)
    → (l : Link) → AreGenuine event_routing_key exchange P l
    → AreGenuine event_routing_key exchange Q l
AreGenuine-map event_routing_key exchange P Q f l h =
    All-map (IsGenuine event_routing_key exchange P) (IsGenuine event_routing_key exchange Q)
      (λ m g. record {
        id = g.id;
        event_type = g.event_type;
        routed = g.routed;
        event = f g.id g.event_type m.payload g.event;
      })
      l.stored h
