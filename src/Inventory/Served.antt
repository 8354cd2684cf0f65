-- ===== src/Inventory/Served.antt =====
-- The loop of `reserveStock` as a whole: what a run that succeeds has done to every product.
use go_commerce_microservice.Prelude.{
  ℕ, ◌+◌, ◌≡◌, refl, sym, Bool, true, false, ◌&&◌, none, some, List, [], ◌∷◌, arith, ◌==◌,
  if◌then◌else◌, All, Bool-cases, inl, inr, ==_iff, ◌∙◌, ap,
}
use mathlib.Core.Path.{subst}
use go_commerce_microservice.Prelude.Int.{ℤ, pos, ◌+ℤ◌, ◌-ℤ◌, ◌≤ℤ◌, int_laws, +ℤ_assoc, -ℤ_sub}
use go_commerce_microservice.External.{Uuid}
use go_commerce_microservice.Sql.{ok, bind-ok}
use go_commerce_microservice.Sql.Rows.{any, any-append}
use go_commerce_microservice.Inventory.Schema.{
  ReserveStockItem, InventoryDataModel, InventoryDb, set_quantities,
}
use go_commerce_microservice.Inventory.Repository.{
  Faults, Draws, Inventories, inventory_for, reservation, reserve_item, reserve_stock,
}
use go_commerce_microservice.Inventory.Stock.{
  row_of, IsKeyed, requested, held, held_for, held_for-append, is_line, is_taken, held-append,
  row_of-update, update-IsKeyed,
}
use go_commerce_microservice.Inventory.Locked.{IsCovered}
use go_commerce_microservice.Inventory.Reserved.{Moved, reserve_item-Moved}

-- Between two rounds: a product without a line of this order still has the row it had when the
-- stock was locked.
pub record Progress (order_id : Uuid) (s t : InventoryDb) : Type 0 where
  pub keyed : IsKeyed t.inventory
  pub untouched :
      (p : Uuid)
      → is_taken order_id p t.reservations ≡ false
      → row_of p t.inventory ≡ row_of p s.inventory

-- A product's row has given `n` pieces of its available stock to its reserved stock.
pub record Gave (n : ℤ) (before after : InventoryDataModel) : Type 0 where
  pub available : after.available_quantity ≡ before.available_quantity -ℤ n
  pub kept : after.reserved_quantity ≡ before.reserved_quantity +ℤ n

-- No product is in debt.
abbrev pub IsSolvent : InventoryDb → Type 0
IsSolvent s =
    (p : Uuid) (row : InventoryDataModel)
    → row_of p s.inventory ≡ some row
    → pos 0 ≤ℤ row.available_quantity

-- What serving an order's items adds to the reservations of the order `o`.
abbrev pub share : Uuid → Uuid → Uuid → List ReserveStockItem → ℤ
share order_id o p items = if order_id == o then requested p items else pos 0

pub record Served (order_id : Uuid) (items : List ReserveStockItem) (s t : InventoryDb)
    : Type 0 where
  pub keyed : IsKeyed t.inventory
  pub rows :
      (p : Uuid) (row : InventoryDataModel)
      → row_of p s.inventory ≡ some row
      → (row' : InventoryDataModel) × (row_of p t.inventory ≡ some row')
        × Gave (requested p items) row row'
  pub absent : (p : Uuid) → row_of p s.inventory ≡ none → row_of p t.inventory ≡ none
  pub lines : (p : Uuid) → held p t.reservations ≡ held p s.reservations +ℤ requested p items
  pub shares :
      (o p : Uuid)
      → held_for o p t.reservations ≡ held_for o p s.reservations +ℤ share order_id o p items
  pub solvent : IsSolvent s → IsSolvent t
  pub outbox_kept : t.outbox ≡ s.outbox
  pub inbox_kept : t.inbox ≡ s.inbox

share_none : (before : ℤ) (same : Bool) → before ≡ before +ℤ (if same then pos 0 else pos 0)
share_none before true = omega int_laws
share_none before false = omega int_laws

Served-refl : (order_id : Uuid) (s : InventoryDb) → IsKeyed s.inventory → Served order_id [] s s
Served-refl order_id s k = record {
  keyed = k;
  rows = λ p row h. (row, h, record { available = omega int_laws; kept = omega int_laws });
  absent = λ p h. h;
  lines = λ p. omega int_laws;
  shares = λ o p. share_none (held_for o p s.reservations) (order_id == o);
  solvent = λ h. h;
  outbox_kept = refl;
  inbox_kept = refl;
}

share_sum :
    (before : ℤ) (same_order same_product : Bool) (quantity rest : ℤ)
    → before
        +ℤ (if same_order && same_product then quantity else pos 0)
        +ℤ (if same_order then rest else pos 0)
      ≡ before +ℤ (if same_order then (if same_product then quantity else pos 0) +ℤ rest else pos 0)
share_sum before true same_product quantity rest =
    +ℤ_assoc before (if same_product then quantity else pos 0) rest
share_sum before false same_product quantity rest = omega int_laws

module _ (d : Draws) (n : ℕ) (order_id : Uuid) (invs : Inventories) (item : ReserveStockItem)
    (s t t' : InventoryDb) where
  row_of-Moved :
      Progress order_id s t
      → IsCovered s invs item
      → Moved d n order_id (inventory_for item.product_id invs) item t t'
      → (p : Uuid)
      → row_of p t'.inventory ≡ (
          if item.product_id == p
          then some (
              set_quantities
                ((inventory_for item.product_id invs).available_quantity -ℤ item.quantity)
                ((inventory_for item.product_id invs).reserved_quantity +ℤ item.quantity)
                d.reserve_time
                (inventory_for item.product_id invs))
          else row_of p t.inventory)
  row_of-Moved so_far c m p =
      let row = inventory_for item.product_id invs in
      ap (row_of p) m.table
      ∙ row_of-update item.product_id p (row.available_quantity -ℤ item.quantity)
          (row.reserved_quantity +ℤ item.quantity) d.reserve_time t.inventory row so_far.keyed
          (so_far.untouched item.product_id m.new_line ∙ c.locked)

  Progress-Moved :
      Progress order_id s t
      → IsCovered s invs item
      → Moved d n order_id (inventory_for item.product_id invs) item t t'
      → Progress order_id s t'
  unfolding reservation any
  Progress-Moved so_far c m = record {
    keyed = subst IsKeyed (sym m.table) (update-IsKeyed _ _ _ _ t.inventory so_far.keyed);
    untouched = λ p free.
        let split =
          ap (λ rows. is_taken order_id p rows) m.lines
          ∙ any-append (is_line order_id p) t.reservations (reservation d n order_id item ∷ []) in
        ground (arith, row_of-Moved so_far c m p, so_far.untouched p, split, free);
  }

  -- What one round has done to the row of a product.
  Gave-Moved :
      Progress order_id s t
      → IsCovered s invs item
      → Moved d n order_id (inventory_for item.product_id invs) item t t'
      → (p : Uuid) (row : InventoryDataModel) → row_of p t.inventory ≡ some row
      → (row' : InventoryDataModel) × (row_of p t'.inventory ≡ some row')
        × Gave (if item.product_id == p then item.quantity else pos 0) row row'
  Gave-Moved so_far c m p row there = elim (Bool-cases (item.product_id == p)) [
    | inl same ↦
        let old = so_far.untouched item.product_id m.new_line ∙ c.locked in
        let found : row_of item.product_id t.inventory ≡ some row =
          subst (λ q. row_of q t.inventory ≡ some row) (sym ((==_iff item.product_id p).0 same))
            there in
        let eq : inventory_for item.product_id invs ≡ row = cc in
        let taken = inventory_for item.product_id invs in
        (
          set_quantities (taken.available_quantity -ℤ item.quantity)
              (taken.reserved_quantity +ℤ item.quantity) d.reserve_time taken,
          row_of-Moved so_far c m p ∙ rw same refl,
          record { available = rw (same, ← eq) refl; kept = rw (same, ← eq) refl },
        )
    | inr differ ↦ (
      row,
      row_of-Moved so_far c m p ∙ rw differ there,
      record { available = rw differ (omega int_laws); kept = rw differ (omega int_laws) },
    )
  ]

  absent-Moved :
      Progress order_id s t
      → IsCovered s invs item
      → Moved d n order_id (inventory_for item.product_id invs) item t t'
      → (p : Uuid) → row_of p t.inventory ≡ none
      → row_of p t'.inventory ≡ none
  absent-Moved so_far c m p gone = elim (Bool-cases (item.product_id == p)) [
    | inl same ↦
        let old = so_far.untouched item.product_id m.new_line ∙ c.locked in
        let found : row_of item.product_id t.inventory ≡ none =
          subst (λ q. row_of q t.inventory ≡ none) (sym ((==_iff item.product_id p).0 same)) gone in
        absurd (ground arith)
    | inr differ ↦ row_of-Moved so_far c m p ∙ rw differ gone
  ]

  IsSolvent-Moved :
      Progress order_id s t
      → IsCovered s invs item
      → Moved d n order_id (inventory_for item.product_id invs) item t t'
      → IsSolvent t
      → IsSolvent t'
  IsSolvent-Moved so_far c m old p row there =
      let step = row_of-Moved so_far c m p in
      elim (Bool-cases (item.product_id == p)) [
        | inl same ↦ ground (arith, step, m.no_debt, same)
        | inr differ ↦ ground (arith, step, old p row, differ)
      ]

  -- A round and then a served list of items serve the longer list.
  Served-Moved :
      Progress order_id s t
      → IsCovered s invs item
      → Moved d n order_id (inventory_for item.product_id invs) item t t'
      → (items : List ReserveStockItem) (end : InventoryDb) → Served order_id items t' end
      → Served order_id (item ∷ items) t end
  unfolding reservation
  Served-Moved so_far c m items end v = record {
    keyed = v.keyed;
    rows = λ p row there.
        let (row', there', gave) = Gave-Moved so_far c m p row there in
        let (row'', there'', gave') = v.rows p row' there' in
        let rest = requested p items in
        let once = if item.product_id == p then item.quantity else pos 0 in
        (
          row'',
          there'',
          record {
            available =
                gave'.available
                ∙ ap (λ z. z -ℤ rest) gave.available
                ∙ -ℤ_sub row.available_quantity once rest;
            kept =
                gave'.kept
                ∙ ap (λ z. z +ℤ rest) gave.kept
                ∙ +ℤ_assoc row.reserved_quantity once rest;
          },
        );
    absent = λ p gone. v.absent p (absent-Moved so_far c m p gone);
    lines = λ p.
        let one =
          ap (held p) m.lines ∙ held-append p t.reservations (reservation d n order_id item) in
        v.lines p
        ∙ ap (λ z. z +ℤ requested p items) one
        ∙ +ℤ_assoc (held p t.reservations) (if item.product_id == p then item.quantity else pos 0)
            (requested p items);
    shares = λ o p.
        let one =
          ap (held_for o p) m.lines
          ∙ held_for-append o p t.reservations (reservation d n order_id item) in
        v.shares o p
        ∙ ap (λ z. z +ℤ share order_id o p items) one
        ∙ share_sum (held_for o p t.reservations) (order_id == o) (item.product_id == p)
            item.quantity (requested p items);
    solvent = λ h. v.solvent (IsSolvent-Moved so_far c m h);
    outbox_kept = v.outbox_kept ∙ m.outbox_kept;
    inbox_kept = v.inbox_kept ∙ m.inbox_kept;
  }

-- The whole loop, from any point between two rounds.
pub reserve_stock-Served :
    (f : Faults) (d : Draws) (n : ℕ) (order_id : Uuid) (invs : Inventories)
    (items : List ReserveStockItem) (s t : InventoryDb)
    → Progress order_id s t
    → All (IsCovered s invs) items
    → (reserve_stock f d n order_id invs items t).0 ≡ ok tt
    → Served order_id items t (reserve_stock f d n order_id invs items t).1
unfolding reserve_stock
reserve_stock-Served f d n order_id invs [] s t so_far c h = Served-refl order_id t so_far.keyed
reserve_stock-Served f d n order_id invs (item ∷ items) s t so_far c h =
    let (a, ran, eq) =
      bind-ok (reserve_item f d n order_id invs item)
        (λ _. reserve_stock f d (n + 1) order_id invs items) t tt h in
    let t' = (reserve_item f d n order_id invs item t).1 in
    let m = reserve_item-Moved f d n order_id invs item t ran in
    let rest =
      reserve_stock-Served f d (n + 1) order_id invs items s t'
        (Progress-Moved d n order_id invs item s t t' so_far c.0 m) c.1 (rw eq at h) in
    rw eq (Served-Moved d n order_id invs item s t t' so_far c.0 m items _ rest)
