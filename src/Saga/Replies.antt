-- ===== src/Saga/Replies.antt =====
-- What serving a request does to the inventory's tables.
use go_commerce_microservice.Prelude.{
  ◌≡◌, refl, ap, ◌∙◌, false, String, List, [], ◌∷◌, ◌++◌, ◌⊎◌, inl, inr, arith, ◌==◌, ==_iff,
}
use go_commerce_microservice.Prelude.Int.{ℤ, pos, ◌+ℤ◌, int_laws}
use go_commerce_microservice.External.{Uuid, UuidText}
use go_commerce_microservice.Sql.{Result}
use go_commerce_microservice.Outbox.{OutboxMessage}
use go_commerce_microservice.Inventory.Schema.{ReserveStockItem, InventoryDb, InboxMessageDataModel}
use go_commerce_microservice.Inventory.Repository.{outbox_message}
use go_commerce_microservice.Inventory.Stock.{IsKeyed, requested, held_for}
use go_commerce_microservice.Inventory.Served.{share}
use go_commerce_microservice.Inventory.Answer.{
  Request, Answer, Ending, remembers, reserve, reserve_all_or_nothing, answer_event, inbox_row,
}
use go_commerce_microservice.Saga.Agreement.{IsGranted, IsDenied}

-- No stock is reserved for the order.
abbrev pub HasNothing : Uuid → InventoryDb → Type 0
HasNothing id i = (p : Uuid) → held_for id p i.reservations ≡ pos 0

-- One more answer and one more inbox entry; the reservations of other orders stay.
pub record IsReply (u : UuidText) (exchange : String) (id event_id : Uuid)
    (lines : List ReserveStockItem) (i i' : InventoryDb) : Type 0 where
  pub message : OutboxMessage
  pub row : InboxMessageDataModel
  pub new : remembers event_id i ≡ false
  pub named : message.aggregate_id ≡ id
  pub remembered : row.message_id ≡ event_id
  pub outbox : i'.outbox ≡ i.outbox ++ message ∷ []
  pub inbox : i'.inbox ≡ i.inbox ++ row ∷ []
  pub keyed : IsKeyed i'.inventory
  pub others :
      (other p : Uuid)
      → (id == other) ≡ false
      → held_for other p i'.reservations ≡ held_for other p i.reservations
  pub outcome :
      HasNothing id i
      → IsGranted u exchange i' id lines message.event_type message.payload
        ⊎ IsDenied u exchange i' id lines message.event_type message.payload

share_here : (id p : Uuid) (lines : List ReserveStockItem) → share id id p lines ≡ requested p lines
share_here id p lines = ground (arith, ==_iff id id)

add_none : (z : ℤ) → z +ℤ pos 0 ≡ z
add_none z = omega int_laws

none_add : (z : ℤ) → pos 0 +ℤ z ≡ z
none_add z = omega int_laws

module _ (u : UuidText) (exchange : String) (q : Request) (s : InventoryDb)
    (keyed : IsKeyed s.inventory) where
  Answer-IsReply :
      {t : InventoryDb}
      → Answer u q s t
      → (t ≡ s) ⊎ IsReply u exchange q.order_id q.message_id q.items s t
  unfolding outbox_message
  Answer-IsReply (Answer.known old) = inl refl
  Answer-IsReply (Answer.granted {t = t} new v) = inr (record {
    message = answer_event u q "StockReserved" "";
    row = inbox_row q;
    new = new;
    named = refl;
    remembered = refl;
    outbox = ap (λ rows. rows ++ answer_event u q "StockReserved" "" ∷ []) v.outbox_kept;
    inbox = ap (λ rows. rows ++ inbox_row q ∷ []) v.inbox_kept;
    keyed = v.keyed;
    others = λ other p apart. v.shares other p ∙ rw apart (add_none _);
    outcome = λ nothing. inl (record {
      answer_id = q.draws.event_id;
      typed = refl;
      written = refl;
      reserved =
          λ p. v.shares q.order_id p ∙ rw (nothing p, share_here q.order_id p q.items) (none_add _);
    });
  })
  Answer-IsReply (Answer.denied {reason = reason} new check) = inr (record {
    message = answer_event u q "StockReservationFailed" reason;
    row = inbox_row q;
    new = new;
    named = refl;
    remembered = refl;
    outbox = refl;
    inbox = refl;
    keyed = keyed;
    others = λ other p apart. refl;
    outcome = λ nothing. inr (record {
      answer_id = q.draws.event_id;
      reason = reason;
      typed = refl;
      written = refl;
      reserved = nothing;
    });
  })

  Ending-IsReply :
      {out : Result (Unit {0}) × InventoryDb}
      → Ending u q s out
      → (out.1 ≡ s) ⊎ IsReply u exchange q.order_id q.message_id q.items s out.1
  Ending-IsReply (Ending.done a) = Answer-IsReply a
  Ending-IsReply Ending.unchanged = inl refl
  Ending-IsReply (Ending.in_doubt lossy a) = Answer-IsReply a

  pub reserve-IsReply :
      ((reserve u q s).1 ≡ s)
      ⊎ IsReply u exchange q.order_id q.message_id q.items s (reserve u q s).1
  reserve-IsReply = Ending-IsReply (reserve_all_or_nothing u q s keyed)
