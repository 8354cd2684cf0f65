-- ===== src/Inventory/Locked.antt =====
-- `checkAndLockStock`: what its answer says of the stock.
use go_commerce_microservice.Prelude.{
  ℕ, ◌+◌, ◌≡◌, refl, Bool, true, false, some, List, [], ◌∷◌, arith, ◌==◌, All, Bool-cases, inl, inr,
  Option-cases, ◌⊎◌, ◌||◌, ==_iff,
}
use go_commerce_microservice.Prelude.Int.{◌≤ℤ◌}
use mathlib.Core.Path.{subst}
use go_commerce_microservice.Error.{Error}
use go_commerce_microservice.External.{Uuid, UuidText}
use go_commerce_microservice.Sql.{Result, ok, err, Fault, fine, refused, lost, statement}
use go_commerce_microservice.Inventory.Schema.{ReserveStockItem, InventoryDataModel, InventoryDb}
use go_commerce_microservice.Inventory.Repository.{
  Faults, Inventories, inventory_for, in_stock, lock_row, Examined, enough, lacking, examine,
  check_items,
}
use go_commerce_microservice.Inventory.Stock.{row_of}

-- The map holds an entry for the product.
abbrev pub is_locked : Uuid → Inventories → Bool
is_locked p [] = false
is_locked p ((q, row) ∷ rest) = q == p || is_locked p rest

-- Every entry of the map is the product's row in the table.
abbrev pub AreCurrent : InventoryDb → Inventories → Type 0
AreCurrent s invs =
    (p : Uuid) → is_locked p invs ≡ true → row_of p s.inventory ≡ some (inventory_for p invs)

-- The stock of an item is locked and suffices.
pub record IsCovered (s : InventoryDb) (invs : Inventories) (item : ReserveStockItem) : Type 0 where
  pub locked : row_of item.product_id s.inventory ≡ some (inventory_for item.product_id invs)
  pub covered : item.quantity ≤ℤ (inventory_for item.product_id invs).available_quantity

lock_row_lem :
    (f : Fault) (p : Uuid) (s : InventoryDb)
    → ((e : Error) × ((lock_row f p s).0 ≡ err e))
      ⊎ ((lock_row f p s).0 ≡ ok (row_of p s.inventory))
unfolding lock_row statement
lock_row_lem fine p s = inr refl
lock_row_lem (refused e) p s = inl (e, refl)
lock_row_lem (lost e) p s = inl (e, refl)

-- A row that the check takes is the product's and has the pieces asked for.
examine-enough :
    (u : UuidText) (f : Fault) (item : ReserveStockItem) (s : InventoryDb)
    (row : InventoryDataModel)
    → examine u item (lock_row f item.product_id s).0 ≡ ok (enough row)
    → (row_of item.product_id s.inventory ≡ some row) × (item.quantity ≤ℤ row.available_quantity)
unfolding examine
examine-enough u f item s row h = elim (lock_row_lem f item.product_id s) [
  | inl (e, refused_read) ↦ absurd (ground arith)
  | inr read ↦ elim (Option-cases (row_of item.product_id s.inventory)) [
    | inl absent ↦ absurd (ground arith)
    | inr (found, there) ↦ (ground arith, ground arith)
  ]
]

AreCurrent-add :
    (s : InventoryDb) (p : Uuid) (row : InventoryDataModel) (invs : Inventories)
    → row_of p s.inventory ≡ some row
    → AreCurrent s invs
    → AreCurrent s ((p, row) ∷ invs)
unfolding inventory_for
AreCurrent-add s p row invs there h q locked = elim (Bool-cases (p == q)) [
  | inl same ↦ rw same (subst (λ t. row_of t s.inventory ≡ some row) ((==_iff p q).0 same) there)
  | inr differ ↦ rw differ (h q (ground arith))
]

-- What an answer `in_stock` says of the map it comes with.
pub record Covers (s : InventoryDb) (before out : Inventories) (items : List ReserveStockItem)
    : Type 0 where
  pub current : AreCurrent s out
  pub kept : (p : Uuid) → is_locked p before ≡ true → is_locked p out ≡ true
  pub items_covered : All (IsCovered s out) items

pub check_items-Covers :
    (u : UuidText) (f : Faults) (n : ℕ) (before out : Inventories) (items : List ReserveStockItem)
    (s : InventoryDb)
    → check_items u f n before items s ≡ ok (in_stock out)
    → AreCurrent s before
    → Covers s before out items
unfolding check_items
check_items-Covers u f n before out [] s h cur =
    let same : before ≡ out = ground arith in
    record { current = rw (← same) cur; kept = λ p l. rw (← same) l; items_covered = tt }
check_items-Covers u f n before out (item ∷ items) s h cur =
    go (examine u item (lock_row (f.lock n) item.product_id s).0) refl
      (λ row. check_items-Covers u f (n + 1) ((item.product_id, row) ∷ before) out items s)
  where
    go :
        (r : Result Examined)
        → examine u item (lock_row (f.lock n) item.product_id s).0 ≡ r
        → ((row : InventoryDataModel)
            → check_items u f (n + 1) ((item.product_id, row) ∷ before) items s ≡ ok (in_stock out)
            → AreCurrent s ((item.product_id, row) ∷ before)
            → Covers s ((item.product_id, row) ∷ before) out items)
        → Covers s before out (item ∷ items)
    go (err e) x ih = absurd (ground arith)
    go (ok (lacking reason)) x ih = absurd (ground arith)
    go (ok (enough row)) x ih =
        let p = item.product_id in
        let (there, enough_pieces) = examine-enough u (f.lock n) item s row x in
        let rest = ih row (ground arith) (AreCurrent-add s p row before there cur) in
        let mine = rest.current p (rest.kept p (ground arith)) in
        record {
          current = rest.current;
          kept = λ q l. rest.kept q (ground arith);
          items_covered = (record { locked = mine; covered = ground arith }, rest.items_covered);
        }
