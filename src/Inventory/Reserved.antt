-- ===== src/Inventory/Reserved.antt =====
-- `reserveStock`: one round and the whole loop, over the rows that were locked.
use go_commerce_microservice.Prelude.{ℕ, ◌≡◌, false, [], ◌∷◌, ◌++◌, arith, ◌==◌, ◌∙◌, ap}
use go_commerce_microservice.Prelude.Int.{ℤ, pos, ◌+ℤ◌, ◌-ℤ◌, ◌≤ℤ◌}
use go_commerce_microservice.External.{Uuid}
use go_commerce_microservice.Sql.{ok, statement, then-ok, statement-ok}
use go_commerce_microservice.Sql.Rows.{any-or_left, insert_unique, update_where}
use go_commerce_microservice.Inventory.Schema.{
  ReserveStockItem, InventoryDataModel, StockReservationDataModel, InventoryDb, has_id,
  set_quantities, same_line, update_inventory, create_reservation,
}
use go_commerce_microservice.Inventory.Repository.{
  Faults, Draws, Inventories, inventory_for, reservation, reserve_item,
}
use go_commerce_microservice.Inventory.Stock.{is_line, is_taken}

-- What a round that succeeds has done, with the row that the map holds for the product.
pub record Moved (d : Draws) (n : ℕ) (order_id : Uuid) (row : InventoryDataModel)
    (item : ReserveStockItem) (s t : InventoryDb) : Type 0 where
  pub table :
      t.inventory
      ≡ update_where
          (has_id row.id)
          (set_quantities
            (row.available_quantity -ℤ item.quantity)
            (row.reserved_quantity +ℤ item.quantity)
            d.reserve_time)
          s.inventory
  pub lines : t.reservations ≡ s.reservations ++ reservation d n order_id item ∷ []
  pub outbox_kept : t.outbox ≡ s.outbox
  pub inbox_kept : t.inbox ≡ s.inbox
  pub new_line : is_taken order_id item.product_id s.reservations ≡ false
  pub at_least_one : pos 1 ≤ℤ item.quantity
  pub no_debt : pos 0 ≤ℤ row.available_quantity -ℤ item.quantity

update_inventory_lem :
    (id : Uuid) (available kept : ℤ) (now : ℕ) (s : InventoryDb)
    → (update_inventory id available kept now s).0 ≡ ok tt
    → (pos 0 ≤ℤ available)
      × ((update_inventory id available kept now s).1 ≡ record s {
        inventory = update_where (has_id id) (set_quantities available kept now) s.inventory;
      })
unfolding update_inventory
update_inventory_lem id available kept now s h = ground arith

create_reservation_lem :
    (row : StockReservationDataModel) (s : InventoryDb)
    → (create_reservation row s).0 ≡ ok tt
    → (pos 1 ≤ℤ row.quantity)
      × (is_taken row.order_id row.product_id s.reservations ≡ false)
      × ((create_reservation row s).1 ≡ record s { reservations = s.reservations ++ row ∷ [] })
unfolding create_reservation insert_unique same_line
create_reservation_lem row s h =
    let apart =
      any-or_left (λ b. is_line row.order_id row.product_id b) (λ b. row.id == b.id)
        s.reservations in
    ground (arith, apart)

pub reserve_item-Moved :
    (f : Faults) (d : Draws) (n : ℕ) (order_id : Uuid) (invs : Inventories)
    (item : ReserveStockItem) (s : InventoryDb)
    → (reserve_item f d n order_id invs item s).0 ≡ ok tt
    → Moved d n order_id
        (inventory_for item.product_id invs)
        item
        s
        (reserve_item f d n order_id invs item s).1
unfolding reserve_item reservation
reserve_item-Moved f d n order_id invs item s h =
    let row = inventory_for item.product_id invs in
    let available = row.available_quantity -ℤ item.quantity in
    let kept = row.reserved_quantity +ℤ item.quantity in
    let put = update_inventory row.id available kept d.reserve_time in
    let create = create_reservation (reservation d n order_id item) in
    let (ran, eq) = then-ok (f.update n) put (statement (f.reserve n) create) s h in
    let (no_debt, after) = update_inventory_lem row.id available kept d.reserve_time s ran in
    let t = (put s).1 in
    let eq' = statement-ok (f.reserve n) create t tt (rw eq at h) in
    let (some_pieces, new, done) =
      create_reservation_lem (reservation d n order_id item) t (rw eq' at (rw eq at h)) in
    let all = ap (λ out. out.1) (eq ∙ eq') ∙ done in
    record {
      table = ap (λ x. x.inventory) all ∙ ap (λ x. x.inventory) after;
      lines = ground arith;
      outbox_kept = ground arith;
      inbox_kept = ground arith;
      new_line = ground arith;
      at_least_one = some_pieces;
      no_debt = no_debt;
    }
