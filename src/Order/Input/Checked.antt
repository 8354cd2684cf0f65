-- ===== src/Order/Input/Checked.antt =====
-- What an accepted input of `CreateOrder` satisfies.
use go_commerce_microservice.Prelude.{ℕ, ◌+◌, ◌≡◌, ◌≢◌, none, List, [], ◌∷◌, All, arith, length}
use go_commerce_microservice.Prelude.Int.{pos, ◌≤ℤ◌}
use go_commerce_microservice.Order.Input.{
  Rules, CreateOrderItemInput, CreateOrderInput, validate_item, validate_items, validate,
}

-- At least one piece of a named product.
pub record IsOrderable (i : CreateOrderItemInput) : Type 0 where
  pub named : i.product_name ≢ ""
  pub at_least_one : pos 1 ≤ℤ i.quantity

validate_item-IsOrderable :
    (r : Rules) (i : CreateOrderItemInput) → validate_item r i ≡ none → IsOrderable i
unfolding validate_item
validate_item-IsOrderable r i h = record {
  named = ground (arith, r.required_text_nonempty i.product_name);
  at_least_one =
      ground (arith, r.required_int_nonzero i.quantity, r.min_int_bound (pos 1) i.quantity);
}

validate_items-IsOrderable :
    (r : Rules) (n : ℕ) (items : List CreateOrderItemInput)
    → validate_items r n items ≡ none
    → All IsOrderable items
unfolding validate_items
validate_items-IsOrderable r n [] h = tt
validate_items-IsOrderable r n (i ∷ items) h = (
  validate_item-IsOrderable r i (ground arith),
  validate_items-IsOrderable r (n + 1) items (ground arith),
)

-- An input that `Validate` accepts has an item, and every item has a name and a quantity of at
-- least one: `Min(1)` alone would let a quantity of zero pass.
pub validate-IsOrderable :
    (r : Rules) (i : CreateOrderInput)
    → validate r i ≡ none
    → (i.items ≢ []) × All IsOrderable i.items
unfolding validate
validate-IsOrderable r i h = (
  ground (arith, r.required_length_nonzero (length i.items)),
  validate_items-IsOrderable r 0 i.items (ground arith),
)
