-- ===== src/Inventory/Consistency.antt =====
-- What stays true of the inventory's tables over any requests, faults and redeliveries.
use go_commerce_microservice.Prelude.{
  ◌≡◌, refl, some, List, [], ◌∷◌, arith, Option-cases, inl, inr, ◌∙◌, ap,
}
use mathlib.Core.Path.{sym, ap₂}
use go_commerce_microservice.Prelude.Int.{ℤ, ◌+ℤ◌, ◌-ℤ◌, int_laws}
use go_commerce_microservice.External.{Uuid, UuidText}
use go_commerce_microservice.Sql.{Result}
use go_commerce_microservice.Inventory.Schema.{ReserveStockItem, InventoryDataModel, InventoryDb}
use go_commerce_microservice.Inventory.Stock.{row_of, IsKeyed, requested, held}
use go_commerce_microservice.Inventory.Served.{Served, IsSolvent}
use go_commerce_microservice.Inventory.Answer.{
  Request, Answer, Ending, reserve, reserve_all_or_nothing,
}

-- Keys are unique, no product is in debt, and the reserved pieces of a product are those that
-- its reservations hold.
pub record IsConsistent (s : InventoryDb) : Type 0 where
  pub keyed : IsKeyed s.inventory
  pub solvent : IsSolvent s
  pub ledger :
      (p : Uuid) (row : InventoryDataModel)
      → row_of p s.inventory ≡ some row
      → row.reserved_quantity ≡ held p s.reservations

-- A product's pieces are neither made nor lost.
pub record Conserves (s t : InventoryDb) : Type 0 where
  pub stock :
      (p : Uuid) (row : InventoryDataModel)
      → row_of p s.inventory ≡ some row
      → (row' : InventoryDataModel) × (row_of p t.inventory ≡ some row')
        × (row'.available_quantity +ℤ row'.reserved_quantity
            ≡ row.available_quantity +ℤ row.reserved_quantity)

Conserves-refl : (s : InventoryDb) → Conserves s s
Conserves-refl s = record { stock = λ p row h. (row, h, refl) }

module _ {order_id : Uuid} {items : List ReserveStockItem} (s t : InventoryDb)
    (v : Served order_id items s t) where
  Served-ledger :
      IsConsistent s
      → (p : Uuid) (row : InventoryDataModel) → row_of p t.inventory ≡ some row
      → row.reserved_quantity ≡ held p t.reservations
  Served-ledger c p row there = elim (Option-cases (row_of p s.inventory)) [
    | inl gone ↦ absurd (ground (arith, v.absent p gone))
    | inr (old, found) ↦
        let (row', there', gave) = v.rows p old found in
        let same : row' ≡ row = ground arith in
        ap (λ r. r.reserved_quantity) (sym same)
        ∙ gave.kept
        ∙ ap (λ z. z +ℤ requested p items) (c.ledger p old found)
        ∙ sym (v.lines p)
  ]

  Served-IsConsistent : IsConsistent s → IsConsistent t
  Served-IsConsistent c = record {
    keyed = v.keyed;
    solvent = v.solvent c.solvent;
    ledger = Served-ledger c;
  }

  Served-Conserves : Conserves s t
  Served-Conserves = record {
    stock = λ p row found.
        let (row', there, gave) = v.rows p row found in
        let moved = ap₂ (λ a b. a +ℤ b) gave.available gave.kept in
        (
          row',
          there,
          moved ∙ regroup row.available_quantity row.reserved_quantity (requested p items),
        );
  }
    where
      regroup : (a b n : ℤ) → a -ℤ n +ℤ (b +ℤ n) ≡ a +ℤ b
      regroup a b n = omega int_laws

module _ (u : UuidText) (q : Request) (s : InventoryDb) where
  Answer-IsConsistent : {t : InventoryDb} → Answer u q s t → IsConsistent s → IsConsistent t
  Answer-IsConsistent (Answer.known old) c = c
  Answer-IsConsistent (Answer.granted {t = t} new v) c =
      let c' = Served-IsConsistent s t v c in
      record { keyed = c'.keyed; solvent = c'.solvent; ledger = c'.ledger }
  Answer-IsConsistent (Answer.denied new check) c = record {
    keyed = c.keyed;
    solvent = c.solvent;
    ledger = c.ledger;
  }

  Answer-Conserves : {t : InventoryDb} → Answer u q s t → Conserves s t
  Answer-Conserves (Answer.known old) = Conserves-refl s
  Answer-Conserves (Answer.granted {t = t} new v) = record {
    stock = (Served-Conserves s t v).stock;
  }
  Answer-Conserves (Answer.denied new check) = record { stock = (Conserves-refl s).stock }

  Ending-safe :
      {out : Result (Unit {0}) × InventoryDb}
      → Ending u q s out
      → IsConsistent s
      → IsConsistent out.1 × Conserves s out.1
  Ending-safe (Ending.done a) c = (Answer-IsConsistent a c, Answer-Conserves a)
  Ending-safe Ending.unchanged c = (c, Conserves-refl s)
  Ending-safe (Ending.in_doubt lossy a) c = (Answer-IsConsistent a c, Answer-Conserves a)

-- A run of calls, one after another, as the row locks and the inbox serialise them.
unfoldable pub reserve_all : UuidText → List Request → InventoryDb → InventoryDb
reserve_all u [] s = s
reserve_all u (q ∷ qs) s = reserve_all u qs (reserve u q s).1

Conserves-trans : (s t r : InventoryDb) → Conserves s t → Conserves t r → Conserves s r
Conserves-trans s t r a b = record {
  stock = λ p row found.
      let (row', there, same) = a.stock p row found in
      let (row'', there', same') = b.stock p row' there in (row'', there', same' ∙ same);
}

-- From consistent tables, any requests with any faults and redeliveries lead to consistent
-- tables: keys unique, no available stock below zero, and each product's reserved quantity equal
-- to the sum of its reservations. The pieces of every product, available and reserved together,
-- are conserved.
pub reserve_all-IsConsistent :
    (u : UuidText) (qs : List Request) (s : InventoryDb)
    → IsConsistent s
    → IsConsistent (reserve_all u qs s) × Conserves s (reserve_all u qs s)
unfolding reserve_all
reserve_all-IsConsistent u [] s c = (c, Conserves-refl s)
reserve_all-IsConsistent u (q ∷ qs) s c =
    let t = (reserve u q s).1 in
    let (c', kept) = Ending-safe u q s (reserve_all_or_nothing u q s c.keyed) c in
    let (c'', kept') = reserve_all-IsConsistent u qs t c' in
    (c'', Conserves-trans s t (reserve_all u qs t) kept kept')
