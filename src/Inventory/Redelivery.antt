-- ===== src/Inventory/Redelivery.antt =====
-- A `ReserveStockRequested` message that is delivered again.
use go_commerce_microservice.Prelude.{
  ◌≡◌, refl, true, arith, ◌==◌, inl, inr, ap, ◌⊎◌, List, [], ◌∷◌, ◌++◌, ◌||◌, ◌∙◌,
}
use mathlib.Core.Path.{subst, sym}
use go_commerce_microservice.Error.{Error}
use go_commerce_microservice.External.{Uuid, UuidText}
use go_commerce_microservice.Sql.{Result, err, Atomic, transaction-Atomic}
use go_commerce_microservice.Sql.Rows.{any, any-append, any-append_self}
use go_commerce_microservice.Inventory.Schema.{InboxMessageDataModel, InventoryDb, has_message}
use go_commerce_microservice.Inventory.Repository.{reserve_stock_with_inbox_and_outbox}
use go_commerce_microservice.Inventory.Stock.{IsKeyed}
use go_commerce_microservice.Inventory.Consistency.{reserve_all}
use go_commerce_microservice.Inventory.Answer.{
  remembers, Request, inbox_row, Answer, Ending, body, body-cases, reserve, reserve_all_or_nothing,
}

module _ (u : UuidText) (q : Request) (s : InventoryDb) where
  Answer-remembers : {t : InventoryDb} → Answer u q s t → remembers q.message_id t ≡ true
  unfolding has_message
  Answer-remembers (Answer.known old) = old
  Answer-remembers (Answer.granted {t = t} new v) =
      any-append_self (λ r. r.message_id == q.message_id) t.inbox (inbox_row q) (ground arith)
  Answer-remembers (Answer.denied new check) =
      any-append_self (λ r. r.message_id == q.message_id) s.inbox (inbox_row q) (ground arith)

  known_body : remembers q.message_id s ≡ true → (body u q s).1 ≡ s
  known_body h = elim (body-cases u q s) [
    | inl (e, eq) ↦ ap (λ out. out.1) eq
    | inr (inl (old, eq)) ↦ ap (λ out. out.1) eq
    | inr (inr (new, eq)) ↦ absurd (ground arith)
  ]

  known-Atomic :
      (out : Result (Unit {0}) × InventoryDb)
      → remembers q.message_id s ≡ true
      → Atomic q.faults.commit (body u q) s out
      → out.1 ≡ s
  known-Atomic out h (Atomic.committed ran) = known_body h
  known-Atomic out h (Atomic.undone why) = refl
  known-Atomic out h (Atomic.in_doubt c ran) = known_body h

  -- A message that the inbox knows changes nothing.
  pub reserve_known : remembers q.message_id s ≡ true → (reserve u q s).1 ≡ s
  unfolding reserve_stock_with_inbox_and_outbox
  reserve_known h = known-Atomic (reserve u q s) h (transaction-Atomic q.faults.commit (body u q) s)

  Ending-remembers :
      {out : Result (Unit {0}) × InventoryDb}
      → Ending u q s out
      → ((e : Error) × (out ≡ (err e, s))) ⊎ (remembers q.message_id out.1 ≡ true)
  Ending-remembers (Ending.done a) = inr (Answer-remembers a)
  Ending-remembers (Ending.unchanged {e = e}) = inl (e, refl)
  Ending-remembers (Ending.in_doubt c a) = inr (Answer-remembers a)

-- What the inbox knows, it knows after any other requests.
module _ (u : UuidText) (m : Uuid) where
  inbox-append :
      (row : InboxMessageDataModel) (rows : List InboxMessageDataModel)
      → any (has_message m) rows ≡ true
      → any (has_message m) (rows ++ row ∷ []) ≡ true
  inbox-append row rows h =
      any-append (has_message m) rows (row ∷ []) ∙ ap (λ b. b || any (has_message m) (row ∷ [])) h

  -- The stock has its keys, and the inbox knows the message.
  abbrev Knows : InventoryDb → Type 0
  Knows s = IsKeyed s.inventory × (remembers m s ≡ true)

  Answer-Knows :
      (q : Request) (s : InventoryDb) {t : InventoryDb} → Answer u q s t → Knows s → Knows t
  Answer-Knows q s (Answer.known old) k = k
  Answer-Knows q s (Answer.granted {t = t} new v) (keyed, h) =
      (v.keyed, inbox-append (inbox_row q) t.inbox (ap (any (has_message m)) v.inbox_kept ∙ h))
  Answer-Knows q s (Answer.denied new check) (keyed, h) =
      (keyed, inbox-append (inbox_row q) s.inbox h)

  Ending-Knows :
      (q : Request) (s : InventoryDb) {out : Result (Unit {0}) × InventoryDb}
      → Ending u q s out
      → Knows s
      → Knows out.1
  Ending-Knows q s (Ending.done a) k = Answer-Knows q s a k
  Ending-Knows q s Ending.unchanged k = k
  Ending-Knows q s (Ending.in_doubt c a) k = Answer-Knows q s a k

  reserve_all-Knows : (qs : List Request) (s : InventoryDb) → Knows s → Knows (reserve_all u qs s)
  unfolding reserve_all
  reserve_all-Knows [] s k = k
  reserve_all-Knows (q ∷ qs) s k =
      reserve_all-Knows qs (reserve u q s).1 (Ending-Knows q s (reserve_all_or_nothing u q s k.0) k)

Answer-IsKeyed :
    (u : UuidText) (q : Request) (s : InventoryDb) {t : InventoryDb}
    → Answer u q s t
    → IsKeyed s.inventory
    → IsKeyed t.inventory
Answer-IsKeyed u q s (Answer.known old) keyed = keyed
Answer-IsKeyed u q s (Answer.granted new v) keyed = v.keyed
Answer-IsKeyed u q s (Answer.denied new check) keyed = keyed

Ending-IsKeyed :
    (u : UuidText) (q : Request) (s : InventoryDb) {out : Result (Unit {0}) × InventoryDb}
    → Ending u q s out
    → IsKeyed s.inventory
    → IsKeyed out.1.inventory
Ending-IsKeyed u q s (Ending.done a) keyed = Answer-IsKeyed u q s a keyed
Ending-IsKeyed u q s Ending.unchanged keyed = keyed
Ending-IsKeyed u q s (Ending.in_doubt c a) keyed = Answer-IsKeyed u q s a keyed

-- Exactly once: a delivery either fails and changes nothing, or its message is done with: after any
-- further requests, of whatever messages, a delivery of it leaves the tables as it finds them,
-- whatever its faults and contents. This covers a commit whose reply is lost. Each row of the
-- inventory has a product and an identifier of its own.
pub exactly_once :
    (u : UuidText) (q q' : Request) (later : List Request) (s : InventoryDb)
    → IsKeyed s.inventory
    → q'.message_id ≡ q.message_id
    → let t = reserve_all u later (reserve u q s).1 in
      ((e : Error) × (reserve u q s ≡ (err e, s))) ⊎ ((reserve u q' t).1 ≡ t)
exactly_once u q q' later s keyed same =
    let ended = reserve_all_or_nothing u q s keyed in
    elim (Ending-remembers u q s ended) [
      | inl failure ↦ inl failure
      | inr known ↦
          let (keyed', known') =
            reserve_all-Knows u q.message_id later (reserve u q s).1
              (Ending-IsKeyed u q s ended keyed, known) in
          let t = reserve_all u later (reserve u q s).1 in
          inr (reserve_known u q' t (subst (λ m. remembers m t ≡ true) (sym same) known'))
    ]
