-- ===== src/Inventory/Repeats.antt =====
-- Requests that name a product twice: the key `UNIQUE(order_id, product_id)` of the schema.
use go_commerce_microservice.Prelude.{
  ℕ, ◌+◌, ◌≡◌, ◌≢◌, refl, Bool, true, false, List, [], ◌∷◌, ◌++◌, ◌||◌, arith, ◌==◌, inl, inr, ◌∙◌,
  ap, All,
}
use go_commerce_microservice.Error.{Error}
use go_commerce_microservice.External.{Uuid, UuidText}
use go_commerce_microservice.Sql.{
  Result, ok, err, bind-ok, bind_value, ◌>>◌, Atomic, transaction-Atomic,
}
use go_commerce_microservice.Sql.Rows.{any, any-append}
use go_commerce_microservice.Inventory.Schema.{ReserveStockItem, InventoryDb}
use go_commerce_microservice.Inventory.Repository.{
  Faults, Draws, Inventories, in_stock, reservation, reserve_item, reserve_stock, check_items,
  check_and_lock_stock, answer_check, reserve_unless_processed, reserve_stock_with_inbox_and_outbox,
}
use go_commerce_microservice.Inventory.Stock.{is_line, is_taken}
use go_commerce_microservice.Inventory.Reserved.{reserve_item-Moved}
use go_commerce_microservice.Inventory.Answer.{
  remembers, Request, body, rest_of_body, after_check, put_answer, put_inbox, body-cases, reserve,
}

abbrev pub repeats : List ReserveStockItem → Bool
repeats [] = false
repeats (item ∷ items) = any (λ other. other.product_id == item.product_id) items || repeats items

-- After a round for `item`, an item without a line of the order names another product.
apart_from :
    (item : ReserveStockItem) (order_id : Uuid) (d : Draws) (n : ℕ) (s t : InventoryDb)
    (items : List ReserveStockItem)
    → t.reservations ≡ s.reservations ++ reservation d n order_id item ∷ []
    → All (λ i. is_taken order_id i.product_id t.reservations ≡ false) items
    → (any (λ other. other.product_id == item.product_id) items ≡ false)
      × All (λ i. is_taken order_id i.product_id s.reservations ≡ false) items
unfolding any reservation
apart_from item order_id d n s t [] lines h = (refl, tt)
apart_from item order_id d n s t (i ∷ items) lines h =
    let (rest, rest') = apart_from item order_id d n s t items lines h.1 in
    let split =
      ap (λ rows. is_taken order_id i.product_id rows) lines
      ∙ any-append (is_line order_id i.product_id) s.reservations
          (reservation d n order_id item ∷ []) in
    (ground (arith, split, rest, h.0), (ground (arith, split, h.0), rest'))

-- A loop that succeeds has met no product twice, and none that the order had a line of.
reserve_stock-distinct :
    (f : Faults) (d : Draws) (n : ℕ) (order_id : Uuid) (invs : Inventories)
    (items : List ReserveStockItem) (s : InventoryDb)
    → (reserve_stock f d n order_id invs items s).0 ≡ ok tt
    → (repeats items ≡ false)
      × All (λ i. is_taken order_id i.product_id s.reservations ≡ false) items
unfolding reserve_stock
reserve_stock-distinct f d n order_id invs [] s h = (refl, tt)
reserve_stock-distinct f d n order_id invs (item ∷ items) s h =
    let (a, ran, eq) =
      bind-ok (reserve_item f d n order_id invs item)
        (λ _. reserve_stock f d (n + 1) order_id invs items) s tt h in
    let t = (reserve_item f d n order_id invs item s).1 in
    let m = reserve_item-Moved f d n order_id invs item s ran in
    let (distinct, free) = reserve_stock-distinct f d (n + 1) order_id invs items t (rw eq at h) in
    let (apart, free') = apart_from item order_id d n s t items m.lines free in
    (rw (apart, distinct) refl, (m.new_line, free'))

module _ (u : UuidText) (q : Request) (s : InventoryDb) (invs : Inventories)
    (checked : check_items u q.faults 0 [] q.items s ≡ ok (in_stock invs)) where
  -- The body, where the check finds the stock, succeeds only if the loop does.
  loop_ran :
      (rest_of_body u q s).0 ≡ ok tt
      → (reserve_stock q.faults q.draws 0 q.order_id invs q.items s).0 ≡ ok tt
  unfolding reserve_unless_processed check_and_lock_stock answer_check
  loop_ran h =
      let eq =
        bind_value (check_and_lock_stock u q.faults q.items) (after_check u q) s
          (ap (λ r. (r, s)) checked) in
      let loop = reserve_stock q.faults q.draws 0 q.order_id invs q.items in
      let (a, ran, eq') =
        bind-ok (loop >> put_answer u q "StockReserved" "") (λ _. put_inbox u q) s tt
          (rw eq at h) in
      (bind-ok loop (λ _. put_answer u q "StockReserved" "") s tt ran).1

  repeat_fails : remembers q.message_id s ≡ false → repeats q.items ≡ true → (body u q s).0 ≢ ok tt
  repeat_fails new twice h = elim (body-cases u q s) [
    | inl (e, eq) ↦ ground arith
    | inr (inl (old, eq)) ↦ ground arith
    | inr (inr (fresh, eq)) ↦
        let ran = loop_ran (rw eq at h) in
        ground (arith, (reserve_stock-distinct q.faults q.draws 0 q.order_id invs q.items s ran).0)
  ]

  rolled_back :
      (out : Result (Unit {0}) × InventoryDb)
      → (body u q s).0 ≢ ok tt
      → Atomic q.faults.commit (body u q) s out
      → (e : Error) × (out ≡ (err e, s))
  rolled_back out bad (Atomic.committed {a = tt} h) = absurd (bad h)
  rolled_back out bad (Atomic.undone {e = e} why) = (e, refl)
  rolled_back out bad (Atomic.in_doubt {a = tt} c h) = absurd (bad h)

-- A new request that names a product twice, each line of which the stock covers, can never be
-- answered: every attempt, with any faults or none, fails and changes nothing, because the second
-- reservation breaks the key on the order and the product.
pub repeat_never_answered :
    (u : UuidText) (q : Request) (s : InventoryDb) (invs : Inventories)
    → check_items u q.faults 0 [] q.items s ≡ ok (in_stock invs)
    → remembers q.message_id s ≡ false
    → repeats q.items ≡ true
    → (e : Error) × (reserve u q s ≡ (err e, s))
unfolding reserve_stock_with_inbox_and_outbox
repeat_never_answered u q s invs checked new twice =
    rolled_back u q s invs checked (reserve u q s) (repeat_fails u q s invs checked new twice)
      (transaction-Atomic q.faults.commit (body u q) s)
