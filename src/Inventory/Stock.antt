-- ===== src/Inventory/Stock.antt =====
-- A product's row in `inventory`, and what an update of one row does to the others.
use go_commerce_microservice.Prelude.{
  ◌≡◌, ◌≢◌, refl, Bool, ◌&&◌, Option, some, List, [], ◌∷◌, ◌++◌, arith, ◌==◌, if◌then◌else◌, All,
  Bool-cases, inl, inr,
}
use go_commerce_microservice.Prelude.Int.{ℤ, pos, ◌+ℤ◌, int_laws}
use go_commerce_microservice.External.{Uuid, Time}
use go_commerce_microservice.Sql.Rows.{any, first_where, update_where}
use go_commerce_microservice.Inventory.Schema.{
  ReserveStockItem, InventoryDataModel, StockReservationDataModel, has_id, set_quantities,
}

abbrev pub is_product : Uuid → InventoryDataModel → Bool
is_product p row = row.product_id == p

-- The row that `SELECT ... WHERE product_id = ?` finds.
abbrev pub row_of : Uuid → List InventoryDataModel → Option InventoryDataModel
row_of p rows = first_where (is_product p) rows

-- The schema's keys: no two rows share an `id` or a `product_id`.
abbrev pub IsKeyed : List InventoryDataModel → Type 0
IsKeyed [] = Unit {0}
IsKeyed (row ∷ rows) =
    All (λ other. (other.id ≢ row.id) × (other.product_id ≢ row.product_id)) rows × IsKeyed rows

-- The pieces of a product that a list of items asks for.
abbrev pub requested : Uuid → List ReserveStockItem → ℤ
requested p [] = pos 0
requested p (item ∷ items) =
    (if item.product_id == p then item.quantity else pos 0) +ℤ requested p items

-- The pieces of a product that reservations hold.
abbrev pub held : Uuid → List StockReservationDataModel → ℤ
held p [] = pos 0
held p (row ∷ rows) = (if row.product_id == p then row.quantity else pos 0) +ℤ held p rows

-- The pieces of a product that an order's reservations hold.
abbrev pub held_for : Uuid → Uuid → List StockReservationDataModel → ℤ
held_for order_id p [] = pos 0
held_for order_id p (row ∷ rows) =
    (if row.order_id == order_id && row.product_id == p then row.quantity else pos 0)
    +ℤ held_for order_id p rows

-- The order has a reservation of the product.
abbrev pub is_line : Uuid → Uuid → StockReservationDataModel → Bool
is_line order_id p row = order_id == row.order_id && p == row.product_id

abbrev pub is_taken : Uuid → Uuid → List StockReservationDataModel → Bool
is_taken order_id p rows = any (is_line order_id p) rows

pub held-append :
    (p : Uuid) (rows : List StockReservationDataModel) (row : StockReservationDataModel)
    → held p (rows ++ row ∷ [])
      ≡ held p rows +ℤ (if row.product_id == p then row.quantity else pos 0)
held-append p [] row = omega int_laws
held-append p (r ∷ rows) row = rw (held-append p rows row) (omega int_laws)

pub held_for-append :
    (order_id p : Uuid) (rows : List StockReservationDataModel) (row : StockReservationDataModel)
    → held_for order_id p (rows ++ row ∷ [])
      ≡ held_for order_id p rows
        +ℤ (if row.order_id == order_id && row.product_id == p then row.quantity else pos 0)
held_for-append order_id p [] row = omega int_laws
held_for-append order_id p (r ∷ rows) row =
    rw (held_for-append order_id p rows row) (omega int_laws)

-- A row that a search of the rest finds differs from the first in both keys.
found_apart :
    (p : Uuid) (first : InventoryDataModel) (rows : List InventoryDataModel)
    (found : InventoryDataModel)
    → All (λ other. (other.id ≢ first.id) × (other.product_id ≢ first.product_id)) rows
    → row_of p rows ≡ some found
    → (found.id ≢ first.id) × (found.product_id ≢ first.product_id)
unfolding first_where
found_apart p first [] found h e = ground arith
found_apart p first (row ∷ rows) found h e = elim (Bool-cases (is_product p row)) [
  | inl same ↦ ground arith
  | inr differ ↦ found_apart p first rows found h.1 (ground arith)
]

-- No row of the rest has the first one's key, so an update by that key leaves the rest alone.
update_apart :
    (first : InventoryDataModel) (g : InventoryDataModel → InventoryDataModel)
    (rows : List InventoryDataModel)
    → All (λ other. (other.id ≢ first.id) × (other.product_id ≢ first.product_id)) rows
    → update_where (has_id first.id) g rows ≡ rows
unfolding update_where
update_apart first g [] h = refl
update_apart first g (row ∷ rows) h = ground (arith, update_apart first g rows)

-- An update of the row of a product, by its key, is seen at that product and at no other.
pub row_of-update :
    (p q : Uuid) (available kept : ℤ) (now : Time) (rows : List InventoryDataModel)
    (row : InventoryDataModel)
    → IsKeyed rows
    → row_of p rows ≡ some row
    → row_of q (update_where (has_id row.id) (set_quantities available kept now) rows)
      ≡ (if p == q then some (set_quantities available kept now row) else row_of q rows)
unfolding first_where update_where
row_of-update p q available kept now [] row h e = ground arith
row_of-update p q available kept now (r ∷ rows) row h e = elim (Bool-cases (is_product p r)) [
  | inl same ↦ ground (arith, update_apart r (set_quantities available kept now) rows h.0)
  | inr differ ↦
      ground
        (arith, found_apart p r rows row h.0, row_of-update p q available kept now rows row h.1)
]

-- A change of quantities keeps the keys.
All-update_keys :
    (id other_id other_product : Uuid) (available kept : ℤ) (now : Time)
    (rows : List InventoryDataModel)
    → All (λ other. (other.id ≢ other_id) × (other.product_id ≢ other_product)) rows
    → All
        (λ other. (other.id ≢ other_id) × (other.product_id ≢ other_product))
        (update_where (has_id id) (set_quantities available kept now) rows)
unfolding update_where
All-update_keys id other_id other_product available kept now [] h = tt
All-update_keys id other_id other_product available kept now (row ∷ rows) h =
    (ground arith, All-update_keys id other_id other_product available kept now rows h.1)

pub update-IsKeyed :
    (id : Uuid) (available kept : ℤ) (now : Time) (rows : List InventoryDataModel)
    → IsKeyed rows
    → IsKeyed (update_where (has_id id) (set_quantities available kept now) rows)
unfolding update_where
update-IsKeyed id available kept now [] h = tt
update-IsKeyed id available kept now (row ∷ rows) h = elim (Bool-cases (has_id id row)) [
  | inl same ↦ rw same (
    All-update_keys id row.id row.product_id available kept now rows h.0,
    update-IsKeyed id available kept now rows h.1,
  )
  | inr differ ↦ rw differ (
    All-update_keys id row.id row.product_id available kept now rows h.0,
    update-IsKeyed id available kept now rows h.1,
  )
]
