-- ===== src/Order/Domain/Totals.antt =====
-- What `NewOrder` makes of its items.
use go_commerce_microservice.Prelude.{ℕ, ◌+◌, ◌≡◌, refl, ap, String, List, [], ◌∷◌, map, foldl, All}
use go_commerce_microservice.Prelude.Int.{ℤ}
use go_commerce_microservice.External.{Uuid, Time, Float64, FloatOps, Fresh}
use go_commerce_microservice.Order.Domain.{OrderItems, OrderStatus, fill_items, new_order}

-- The sum of the subtotals, added from the left as the loop does.
abbrev pub sum_subtotals : FloatOps → Float64 → List OrderItems → Float64
sum_subtotals fl = foldl (λ t item. fl.add t item.subtotal)

-- What a line of an order was asked for: it stays as the client gave it.
abbrev pub Line : Type 0
Line = Uuid × String × Float64 × ℤ

abbrev pub line : OrderItems → Line
line i = (i.product_id, i.product_name, i.unit_price, i.quantity)

-- An item that belongs to an order and is priced.
pub record IsPriced (fl : FloatOps) (order_id : Uuid) (i : OrderItems) : Type 0 where
  pub belongs : i.order_id ≡ order_id
  pub priced : i.subtotal ≡ fl.mul i.unit_price (fl.of_int i.quantity)

module _ (fl : FloatOps) (fresh : Fresh) (order_id : Uuid) where
  fill_items-IsPriced :
      (n : ℕ) (total : Float64) (items : List OrderItems)
      → All (IsPriced fl order_id) (fill_items fl fresh order_id n total items).0
  unfolding fill_items
  fill_items-IsPriced n total [] = tt
  fill_items-IsPriced n total (i ∷ items) =
      let t = fl.add total (fl.mul i.unit_price (fl.of_int i.quantity)) in
      (record { belongs = refl; priced = refl }, fill_items-IsPriced (n + 1) t items)

  fill_items-lines :
      (n : ℕ) (total : Float64) (items : List OrderItems)
      → map line (fill_items fl fresh order_id n total items).0 ≡ map line items
  unfolding fill_items
  fill_items-lines n total [] = refl
  fill_items-lines n total (i ∷ items) =
      let t = fl.add total (fl.mul i.unit_price (fl.of_int i.quantity)) in
      ap (λ rest. line i ∷ rest) (fill_items-lines (n + 1) t items)

  fill_items-total :
      (n : ℕ) (total : Float64) (items : List OrderItems)
      → (fill_items fl fresh order_id n total items).1
        ≡ sum_subtotals fl total (fill_items fl fresh order_id n total items).0
  unfolding fill_items
  fill_items-total n total [] = refl
  fill_items-total n total (i ∷ items) =
      fill_items-total (n + 1) (fl.add total (fl.mul i.unit_price (fl.of_int i.quantity))) items

-- A new order is PENDING, keeps each line as it was asked for, prices each line at unit price
-- times quantity, and its total is the sum of the subtotals, added from the left.
pub new_order-IsPriced :
    (fl : FloatOps) (fresh : Fresh) (now : Time) (customer_id : Uuid) (items : List OrderItems)
    → let o = new_order fl fresh now customer_id items in
      (o.status ≡ OrderStatus.pending)
      × (map line o.items ≡ map line items)
      × All (IsPriced fl o.id) o.items
      × (o.total_amount ≡ sum_subtotals fl 0 o.items)
unfolding new_order
new_order-IsPriced fl fresh now customer_id items = (
  refl,
  fill_items-lines fl fresh (fresh 0) 0 0 items,
  fill_items-IsPriced fl fresh (fresh 0) 0 0 items,
  fill_items-total fl fresh (fresh 0) 0 0 items,
)
