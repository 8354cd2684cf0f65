-- ===== src/Inventory/Answer.antt =====
-- The transaction of `ReserveStockWithInboxAndOutbox`: how it may end.
use go_commerce_microservice.Prelude.{
  ◌≡◌, refl, Bool, true, false, List, [], ◌∷◌, ◌++◌, arith, Bool-cases, inl, inr, ◌∙◌, ap, ◌⊎◌, ◌≢◌,
  String,
}
use mathlib.Core.Path.{subst, sym}
use go_commerce_microservice.Error.{Error}
use go_commerce_microservice.External.{Uuid, UuidText}
use go_commerce_microservice.Json.{Body}
use go_commerce_microservice.Sql.{
  Result, ok, err, Fault, fine, refused, lost, Call, statement, ◌>>◌, bind-ok, bind_value,
  bind_error, statement-ok, Atomic, transaction-Atomic,
}
use go_commerce_microservice.Sql.Rows.{any, count_where-pos, insert_unique}
use go_commerce_microservice.Outbox.{OutboxMessage}
use go_commerce_microservice.Inventory.Schema.{
  ReserveStockItem, InboxMessageDataModel, InventoryDb, create_outbox_row, create_inbox_row,
  has_message,
}
use go_commerce_microservice.Inventory.Repository.{
  Faults, Draws, StockCheck, in_stock, out_of_stock, is_message_processed, check_items,
  check_and_lock_stock, reserve_stock, outbox_message, insert_outbox, insert_inbox, answer_check,
  reserve_unless_processed, reserve_body, reserve_stock_with_inbox_and_outbox,
}
use go_commerce_microservice.Inventory.Stock.{IsKeyed}
use go_commerce_microservice.Inventory.Locked.{check_items-Covers}
use go_commerce_microservice.Inventory.Served.{Progress, Served, reserve_stock-Served}

abbrev pub remembers : Uuid → InventoryDb → Bool
remembers message_id s = any (has_message message_id) s.inbox

-- One call, its environment and its arguments.
pub record Request : Type 0 where
  pub faults : Faults
  pub draws : Draws
  pub message_id : Uuid
  pub order_id : Uuid
  pub items : List ReserveStockItem
  pub payload : Body

abbrev pub inbox_row : Request → InboxMessageDataModel
inbox_row q = record {
  id = q.draws.inbox_id;
  message_id = q.message_id;
  event_type = "ReserveStockRequested";
  payload = q.payload;
  processed_at = q.draws.inbox_time;
}

abbrev pub answer_event : UuidText → Request → String → String → OutboxMessage
answer_event u q event_type reason = outbox_message u q.draws q.order_id event_type reason q.items

-- The tables with the answer in the outbox and the message in the inbox.
abbrev pub answered : UuidText → Request → String → String → InventoryDb → InventoryDb
answered u q event_type reason t = record t {
  outbox = t.outbox ++ answer_event u q event_type reason ∷ [];
  inbox = t.inbox ++ inbox_row q ∷ [];
}

-- What a body that returns no error has done: nothing, to a message that is known; or it has
-- served every item and answers `StockReserved`; or it has touched no stock and answers
-- `StockReservationFailed` with the reason of the check.
pub data Answer (u : UuidText) (q : Request) (s : InventoryDb) : InventoryDb → Type 0 where
  known : remembers q.message_id s ≡ true → Answer u q s s
  granted :
      {t : InventoryDb}
      → remembers q.message_id s ≡ false
      → Served q.order_id q.items s t
      → Answer u q s (answered u q "StockReserved" "" t)
  denied :
      {reason : String}
      → remembers q.message_id s ≡ false
      → check_items u q.faults 0 [] q.items s ≡ ok (out_of_stock reason)
      → Answer u q s (answered u q "StockReservationFailed" reason s)

create_outbox_row_lem :
    (row : OutboxMessage) (s : InventoryDb)
    → (create_outbox_row row s).0 ≡ ok tt
    → (create_outbox_row row s).1 ≡ record s { outbox = s.outbox ++ row ∷ [] }
unfolding create_outbox_row insert_unique
create_outbox_row_lem row s h = ground arith

create_inbox_row_lem :
    (row : InboxMessageDataModel) (s : InventoryDb)
    → (create_inbox_row row s).0 ≡ ok tt
    → (create_inbox_row row s).1 ≡ record s { inbox = s.inbox ++ row ∷ [] }
unfolding create_inbox_row insert_unique
create_inbox_row_lem row s h = ground arith

module _ (u : UuidText) (q : Request) where
  abbrev pub put_answer : String → String → Call InventoryDb (Unit {0})
  put_answer event_type reason =
      insert_outbox u q.faults q.draws q.order_id event_type reason q.items

  abbrev pub put_inbox : Call InventoryDb (Unit {0})
  put_inbox = insert_inbox q.faults q.draws q.message_id "ReserveStockRequested" q.payload

  -- The two inserts that end the body.
  closing :
      (event_type reason : String) (t : InventoryDb)
      → (put_answer event_type reason t).0 ≡ ok tt
      → (put_inbox (put_answer event_type reason t).1).0 ≡ ok tt
      → (put_inbox (put_answer event_type reason t).1).1 ≡ answered u q event_type reason t
  unfolding insert_outbox insert_inbox
  closing event_type reason t h k =
      let put = create_outbox_row (answer_event u q event_type reason) in
      let eq = statement-ok q.faults.create_outbox put t tt h in
      let t' = (put_answer event_type reason t).1 in
      let eq' = statement-ok q.faults.create_inbox (create_inbox_row (inbox_row q)) t' tt k in
      ap (λ out. out.1) eq'
      ∙ create_inbox_row_lem (inbox_row q) t' (rw eq' at k)
      ∙ ap (λ (d : InventoryDb). record d { inbox = d.inbox ++ inbox_row q ∷ [] })
          (ap (λ out. out.1) eq
            ∙ create_outbox_row_lem (answer_event u q event_type reason) t (rw eq at h))

  abbrev pub rest_of_body : Call InventoryDb (Unit {0})
  rest_of_body =
      reserve_unless_processed u q.faults q.draws q.message_id q.order_id q.items q.payload false

  abbrev pub after_check : StockCheck → Call InventoryDb (Unit {0})
  after_check c = answer_check u q.faults q.draws q.order_id q.items c >> put_inbox

  after_check-Answer :
      (s : InventoryDb) (c : StockCheck)
      → IsKeyed s.inventory
      → remembers q.message_id s ≡ false
      → check_items u q.faults 0 [] q.items s ≡ ok c
      → (after_check c s).0 ≡ ok tt
      → Answer u q s (after_check c s).1
  unfolding answer_check
  after_check-Answer s (in_stock invs) keyed new c h =
      let covers = check_items-Covers u q.faults 0 [] invs q.items s c (λ p l. cc) in
      let reserve = reserve_stock q.faults q.draws 0 q.order_id invs q.items in
      let (a, ran, eq) =
        bind-ok (reserve >> put_answer "StockReserved" "") (λ _. put_inbox) s tt h in
      let (b, ran', eq') = bind-ok reserve (λ _. put_answer "StockReserved" "") s tt ran in
      let t = (reserve s).1 in
      let start : Progress q.order_id s s = record { keyed = keyed; untouched = λ p free. refl } in
      let served =
        reserve_stock-Served q.faults q.draws 0 q.order_id invs q.items s s start
          covers.items_covered ran' in
      let done : (after_check (in_stock invs) s).1 ≡ answered u q "StockReserved" "" t =
        ap (λ out. out.1) eq
        ∙ ap (λ (out : Result (Unit {0}) × InventoryDb). (put_inbox out.1).1) eq'
        ∙ closing "StockReserved" "" t (rw eq' at ran) (rw eq' at (rw eq at h)) in
      subst (Answer u q s) (sym done) (Answer.granted new served)
  after_check-Answer s (out_of_stock reason) keyed new c h =
      let (a, ran, eq) =
        bind-ok (put_answer "StockReservationFailed" reason) (λ _. put_inbox) s tt h in
      let done : (after_check (out_of_stock reason) s).1
          ≡ answered u q "StockReservationFailed" reason s =
        ap (λ out. out.1) eq ∙ closing "StockReservationFailed" reason s ran (rw eq at h) in
      subst (Answer u q s) (sym done) (Answer.denied new c)

  rest-Answer :
      (s : InventoryDb) (c : Result StockCheck)
      → IsKeyed s.inventory
      → remembers q.message_id s ≡ false
      → check_items u q.faults 0 [] q.items s ≡ c
      → (rest_of_body s).0 ≡ ok tt
      → Answer u q s (rest_of_body s).1
  unfolding reserve_unless_processed check_and_lock_stock
  rest-Answer s (err e) keyed new c h =
      let eq =
        bind_error (check_and_lock_stock u q.faults q.items) after_check s (ap (λ r. (r, s)) c) in
      absurd (ground (arith, eq, h))
  rest-Answer s (ok check) keyed new c h =
      let eq =
        bind_value (check_and_lock_stock u q.faults q.items) after_check s (ap (λ r. (r, s)) c) in
      rw eq (after_check-Answer s check keyed new c (rw eq at h))

  abbrev pub body : Call InventoryDb (Unit {0})
  body = reserve_body u q.faults q.draws q.message_id q.order_id q.items q.payload

  abbrev on_lookup : Bool → Call InventoryDb (Unit {0})
  on_lookup = reserve_unless_processed u q.faults q.draws q.message_id q.order_id q.items q.payload

  is_message_processed_lem :
      (f : Fault) (s : InventoryDb)
      → ((e : Error) × (f ≢ fine) × (is_message_processed f q.message_id s ≡ (err e, s)))
        ⊎ (is_message_processed f q.message_id s ≡ (ok (remembers q.message_id s), s))
  unfolding is_message_processed statement
  is_message_processed_lem fine s = inr (rw count_where-pos)
  is_message_processed_lem (refused e) s = inl (e, (λ p. cc), refl)
  is_message_processed_lem (lost e) s = inl (e, (λ p. cc), refl)

  -- The body fails to look the message up, or finds it, or goes on.
  pub body-cases :
      (s : InventoryDb)
      → ((e : Error) × (body s ≡ (err e, s)))
        ⊎ ((remembers q.message_id s ≡ true) × (body s ≡ (ok tt, s)))
        ⊎ ((remembers q.message_id s ≡ false) × (body s ≡ rest_of_body s))
  unfolding reserve_body
  body-cases s =
      let look = is_message_processed q.faults.is_processed q.message_id in
      elim (is_message_processed_lem q.faults.is_processed s) [
        | inl (e, fault, read) ↦ inl (e, bind_error look on_lookup s read)
        | inr read ↦ elim (Bool-cases (remembers q.message_id s)) [
          | inl old ↦ inr (inl (old, bind_value look on_lookup s (read ∙ ap (λ b. (ok b, s)) old)))
          | inr new ↦ inr (inr (new, bind_value look on_lookup s (read ∙ ap (λ b. (ok b, s)) new)))
        ]
      ]

  body-Answer :
      (s : InventoryDb) → IsKeyed s.inventory → (body s).0 ≡ ok tt → Answer u q s (body s).1
  body-Answer s keyed h = elim (body-cases s) [
    | inl (e, failed_read) ↦ absurd (ground arith)
    | inr (inl (old, eq)) ↦ rw eq (Answer.known old)
    | inr (inr (new, eq)) ↦
        rw eq (rest-Answer s (check_items u q.faults 0 [] q.items s) keyed new refl (rw eq at h))
  ]

-- The call, as the service makes it.
abbrev pub reserve : UuidText → Request → Call InventoryDb (Unit {0})
reserve u q =
    reserve_stock_with_inbox_and_outbox u q.faults q.draws q.message_id q.order_id q.items q.payload

-- How the call may end: with an answer; with an error and nothing changed; or, when the reply to
-- the commit is lost, with an error and an answer.
pub data Ending (u : UuidText) (q : Request) (s : InventoryDb)
    : Result (Unit {0}) × InventoryDb → Type 0 where
  done : {t : InventoryDb} → Answer u q s t → Ending u q s (ok tt, t)
  unchanged : {e : Error} → Ending u q s (err e, s)
  in_doubt :
      {e : Error} {t : InventoryDb}
      → q.faults.commit ≡ lost e
      → Answer u q s t
      → Ending u q s (err e, t)

ending :
    (u : UuidText) (q : Request) (s : InventoryDb) (out : Result (Unit {0}) × InventoryDb)
    → IsKeyed s.inventory
    → Atomic q.faults.commit (body u q) s out
    → Ending u q s out
ending u q s out keyed (Atomic.committed {a = tt} h) = Ending.done (body-Answer u q s keyed h)
ending u q s out keyed (Atomic.undone why) = Ending.unchanged
ending u q s out keyed (Atomic.in_doubt {a = tt} c h) =
    Ending.in_doubt c (body-Answer u q s keyed h)

-- Reserving the stock of an order is all or nothing, whatever the database does: the call serves
-- every item in full and answers `StockReserved`, or touches no stock and answers
-- `StockReservationFailed`, or finds the message handled before, or changes nothing at all. An
-- answer and the inbox entry come together, in one commit.
pub reserve_all_or_nothing :
    (u : UuidText) (q : Request) (s : InventoryDb)
    → IsKeyed s.inventory
    → Ending u q s (reserve u q s)
unfolding reserve_stock_with_inbox_and_outbox
reserve_all_or_nothing u q s keyed =
    ending u q s (reserve u q s) keyed (transaction-Atomic q.faults.commit (body u q) s)
