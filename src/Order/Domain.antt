-- ===== src/Order/Domain.antt =====
-- services/order-service/internal/domain: orders, their items, and the outbox message.
pub mod Totals
use go_commerce_microservice.Prelude.{ℕ, ◌+◌, String, List, [], ◌∷◌}
use go_commerce_microservice.Prelude.Int.{ℤ}
use go_commerce_microservice.External.{Uuid, Time, Float64, FloatOps, Fresh}

-- The three values of the `status` column.
pub data OrderStatus : Type 0 where
  pending confirmed failed : OrderStatus

pub record OrderItems : Type 0 where
  pub id : Uuid
  pub order_id : Uuid
  pub product_id : Uuid
  pub product_name : String
  pub unit_price : Float64
  pub quantity : ℤ
  pub subtotal : Float64

pub record Order : Type 0 where
  pub id : Uuid
  pub customer_id : Uuid
  pub status : OrderStatus
  pub total_amount : Float64
  pub created_at : Time
  pub updated_at : Time
  pub items : List OrderItems

-- The loop of `NewOrder`: item `n` gets the identifier drawn after the order's own.
unfoldable pub fill_items :
    FloatOps → Fresh → Uuid → ℕ → Float64 → List OrderItems → List OrderItems × Float64
fill_items fl fresh order_id n total [] = ([], total)
fill_items fl fresh order_id n total (item ∷ items) =
    let subtotal = fl.mul item.unit_price (fl.of_int item.quantity) in
    let (rest, sum) = fill_items fl fresh order_id (n + 1) (fl.add total subtotal) items in
    (record item { id = fresh (n + 1); order_id = order_id; subtotal = subtotal } ∷ rest, sum)

unfoldable pub new_order : FloatOps → Fresh → Time → Uuid → List OrderItems → Order
unfolding fill_items
new_order fl fresh now customer_id items =
    let (filled, total) = fill_items fl fresh (fresh 0) 0 0 items in
    record {
      id = fresh 0;
      customer_id = customer_id;
      status = OrderStatus.pending;
      total_amount = total;
      created_at = now;
      updated_at = now;
      items = filled;
    }
