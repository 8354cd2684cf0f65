-- ===== src/Saga/Stock.antt =====
-- A delivered request at the inventory service, and what its handling keeps of the agreement.
use go_commerce_microservice.Prelude.{
  ◌≡◌, ◌≢◌, refl, sym, ap, ◌∙◌, true, false, none, String, List, [], ◌∷◌, ◌⊎◌, inl, inr, arith,
  ◌==◌, Bool-cases, Option-cases, ==_iff,
}
use mathlib.Core.Path.{subst}
use go_commerce_microservice.External.{Uuid, UuidText}
use go_commerce_microservice.Json.{Body}
use go_commerce_microservice.Sql.{Result, ok, err}
use go_commerce_microservice.Sql.Rows.{any, any-append}
use go_commerce_microservice.Messaging.Delivery.{Delivery}
use go_commerce_microservice.Messaging.Publisher.{Link, inventory_event_routing_key}
use go_commerce_microservice.Order.Domain.{Order, OrderStatus}
use go_commerce_microservice.Order.Schema.{OrderDb}
use go_commerce_microservice.Order.Service.{event_payload}
use go_commerce_microservice.Inventory.Schema.{ReserveStockItem, InventoryDb, has_message}
use go_commerce_microservice.Inventory.Answer.{Request, remembers, reserve}
use go_commerce_microservice.Inventory.Consumer.{
  Turn, read_request, with_request, after_service, handle_message,
}
use go_commerce_microservice.Saga.{HaveInts, request_round_trip}
use go_commerce_microservice.Saga.Events.{event_of, Each}
use go_commerce_microservice.Saga.Broker.{AreGenuine-map}
use go_commerce_microservice.Saga.Agreement.{
  Says, StockSide, IsAnswer, IsGranted, IsDenied, IsBacked, lines_of,
}
use go_commerce_microservice.Saga.Says.{Says-append, Says-new, Says-cases, first-append}
use go_commerce_microservice.Saga.Replies.{HasNothing, IsReply}

-- Who asks, for what, under which identifier.
pub record Asked (u : UuidText) (o : OrderDb) (id event_id : Uuid) (lines : List ReserveStockItem)
    : Type 0 where
  pub order : Order
  pub same_id : order.id ≡ id
  pub same_lines : lines_of order ≡ lines
  pub asked : Says o.outbox id "ReserveStockRequested" (event_payload u event_id order)
  pub ints : HaveInts (lines_of order)

module _ (u : UuidText) (exchange : String) (o : OrderDb) (i i' : InventoryDb) (l : Link)
    (id event_id : Uuid) (lines : List ReserveStockItem)
    (reply : IsReply u exchange id event_id lines i i') where
  still_known : (m : Uuid) → remembers m i ≡ true → remembers m i' ≡ true
  still_known m h =
      ap (any (has_message m)) reply.inbox
      ∙ any-append (has_message m) i.inbox (reply.row ∷ [])
      ∙ rw h refl

  now_known : remembers event_id i' ≡ true
  unfolding any has_message
  now_known =
      ap (any (has_message event_id)) reply.inbox
      ∙ any-append (has_message event_id) i.inbox (reply.row ∷ [])
      ∙ ground (arith, reply.remembered, ==_iff reply.row.message_id event_id)

  Says-later : (k : Uuid) (e : String) (b : Body) → Says i.outbox k e b → Says i'.outbox k e b
  Says-later k e b h = ap (event_of k) reply.outbox ∙ Says-append i.outbox reply.message k e b h

  Says-split :
      (k : Uuid) (e : String) (b : Body)
      → Says i'.outbox k e b
      → Says i.outbox k e b
        ⊎ ((event_of k i.outbox ≡ none)
            × (reply.message.aggregate_id ≡ k)
            × (reply.message.event_type ≡ e)
            × (reply.message.payload ≡ b))
  Says-split k e b h =
      Says-cases i.outbox reply.message k e b (ap (event_of k) (sym reply.outbox) ∙ h)

  pub reply-IsBacked :
      (st : OrderStatus) (e : String) → IsBacked u exchange st e o i → IsBacked u exchange st e o i'
  reply-IsBacked st e before k there = let (b, says) = before k there in (b, Says-later k e b says)

  module _ (side : StockSide u exchange i l)
      (answers : (k : Uuid) (e : String) (b : Body)
        → Says i.outbox k e b
        → IsAnswer u exchange o i k e b)
      (asking : Asked u o id event_id lines) where
    -- An earlier answer would be to the same request, which the inbox would know.
    unanswered : event_of id i.outbox ≡ none
    unanswered = elim (Option-cases (event_of id i.outbox)) [
      | inl gone ↦ gone
      | inr ((e, b), there) ↦
          let a = answers id e b there in
          let same_payload : event_payload u a.event_id a.order
              ≡ event_payload u event_id asking.order =
            ground (arith, a.asked, asking.asked) in
          let read =
            sym (request_round_trip u a.event_id a.order a.ints)
            ∙ ap (read_request u) same_payload
            ∙ request_round_trip u event_id asking.order asking.ints in
          let same_event : a.event_id ≡ event_id = ground (arith, read) in
          absurd (ground (arith, reply.new, subst (λ m. remembers m i ≡ true) same_event a.known))
    ]

    nothing_yet : HasNothing id i
    nothing_yet = side.silent id unanswered

    others_first : (k : Uuid) → event_of k i.outbox ≢ none → (id == k) ≡ false
    others_first k there = elim (Bool-cases (id == k)) [
      | inl same ↦
          absurd (there (subst (λ x. event_of x i.outbox ≡ none) ((==_iff id k).0 same) unanswered))
      | inr differ ↦ differ
    ]

    first_reply : event_of reply.message.aggregate_id i.outbox ≡ none
    first_reply = rw reply.named unanswered

    unsaid : (k : Uuid) → event_of k i'.outbox ≡ none → event_of k i.outbox ≡ none
    unsaid k gone = elim (Option-cases (event_of k i.outbox)) [
      | inl none_yet ↦ none_yet
      | inr ((e, b), there) ↦ absurd (ground (arith, Says-later k e b there))
    ]

    -- The new row answers the request.
    said_now :
        Says i'.outbox reply.message.aggregate_id reply.message.event_type reply.message.payload
    said_now =
        ap (event_of reply.message.aggregate_id) reply.outbox
        ∙ Says-new i.outbox reply.message first_reply

    silent_later : (k : Uuid) → event_of k i'.outbox ≡ none → HasNothing k i'
    silent_later k gone p = elim (Bool-cases (id == k)) [
      | inl same ↦ absurd (ground (arith, said_now, reply.named, (==_iff id k).0 same))
      | inr differ ↦ reply.others k p differ ∙ side.silent k (unsaid k gone) p
    ]

    pub reply-StockSide : StockSide u exchange i' l
    reply-StockSide = record {
      keyed = reply.keyed;
      first =
          subst (λ t. Each (Says t) t) (sym reply.outbox)
            (first-append i.outbox reply.message first_reply side.first);
      sent =
          AreGenuine-map inventory_event_routing_key exchange (Says i.outbox) (Says i'.outbox)
            Says-later l side.sent;
      silent = silent_later;
    }

    old_outcome :
        (k : Uuid) (e : String) (b : Body) (ls : List ReserveStockItem)
        → (id == k) ≡ false
        → IsGranted u exchange i k ls e b ⊎ IsDenied u exchange i k ls e b
        → IsGranted u exchange i' k ls e b ⊎ IsDenied u exchange i' k ls e b
    old_outcome k e b ls differ (inl g) = inl (record {
      answer_id = g.answer_id;
      typed = g.typed;
      written = g.written;
      reserved = λ p. reply.others k p differ ∙ g.reserved p;
    })
    old_outcome k e b ls differ (inr d) = inr (record {
      answer_id = d.answer_id;
      reason = d.reason;
      typed = d.typed;
      written = d.written;
      reserved = λ p. reply.others k p differ ∙ d.reserved p;
    })

    old_answer :
        (k : Uuid) (e : String) (b : Body) → Says i.outbox k e b → IsAnswer u exchange o i' k e b
    old_answer k e b says =
        let a = answers k e b says in
        record {
          order = a.order;
          event_id = a.event_id;
          same_id = a.same_id;
          asked = a.asked;
          known = still_known a.event_id a.known;
          ints = a.ints;
          outcome =
              old_outcome k e b (lines_of a.order)
                (others_first k (λ gone. ground (arith, gone, says))) a.outcome;
        }

    new_answer : IsAnswer u exchange o i' id reply.message.event_type reply.message.payload
    new_answer = record {
      order = asking.order;
      event_id = event_id;
      same_id = asking.same_id;
      asked = asking.asked;
      known = now_known;
      ints = asking.ints;
      outcome = rw asking.same_lines (reply.outcome nothing_yet);
    }

    pub reply-IsAnswer :
        (k : Uuid) (e : String) (b : Body) → Says i'.outbox k e b → IsAnswer u exchange o i' k e b
    reply-IsAnswer k e b says = elim (Says-split k e b says) [
      | inl old ↦ old_answer k e b old
      | inr (gone, here, typed, written) ↦
          rw (sym (sym reply.named ∙ here), sym typed, sym written) new_answer
    ]

after_service-db :
    (t : Turn) (out : Result (Unit {0}) × InventoryDb) → (after_service t out).1 ≡ out.1
unfolding after_service
after_service-db t (ok x, db) = refl
after_service-db t (err e, db) = refl

-- A delivered request calls the service, with what it says.
pub request_delivery :
    (u : UuidText) (t : Turn) (d : Delivery) (event_id : Uuid) (order : Order) (db : InventoryDb)
    → HaveInts (lines_of order)
    → d.body ≡ event_payload u event_id order
    → (handle_message u t d db).1
      ≡ (reserve u
          (record {
            faults = t.faults;
            draws = t.draws;
            message_id = event_id;
            order_id = order.id;
            items = lines_of order;
            payload = d.body;
          })
          db).1
unfolding handle_message with_request
request_delivery u t d event_id order db ints h =
    let q : Request = record {
      faults = t.faults;
      draws = t.draws;
      message_id = event_id;
      order_id = order.id;
      items = lines_of order;
      payload = d.body;
    } in
    rw (ap (read_request u) h ∙ request_round_trip u event_id order ints)
      (after_service-db t (reserve u q db))
