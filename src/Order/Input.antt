-- ===== src/Order/Input.antt =====
-- services/order-service/internal/dto/order.go: the checks on the input of `CreateOrder`.
pub mod Checked
use go_commerce_microservice.Prelude.{
  ℕ, zero, suc, ◌+◌, ◌≤◌, ◌<◌, ◌≡◌, ◌≢◌, ◌⊎◌, String, Bool, true, false, Option, none, some, List,
  [], ◌∷◌, ◌++◌, length, ◌&&◌, if◌then◌else◌,
}
use go_commerce_microservice.Prelude.Int.{ℤ, pos, ◌≤ℤ◌}
use go_commerce_microservice.Error.{Error}
use go_commerce_microservice.External.{Uuid, Float64}

-- The rules of ozzo-validation that the code names, with what its documentation says of them:
-- `Required` refuses the zero value of a text, a number and a slice; `Min` and `Length` pass it.
-- `failure` is the error for the fields that fail, each with its failing elements.
pub record Rules : Type 0 where
  pub required_uuid : Uuid → Bool
  pub required_text : String → Bool
  pub required_int : ℤ → Bool
  pub required_length : ℕ → Bool
  pub length_at_least : ℕ → ℕ → Bool
  pub min_float : Float64 → Float64 → Bool
  pub min_int : ℤ → ℤ → Bool
  pub failure : List (String × List (ℕ × Error)) → Error
  pub required_int_nonzero : (z : ℤ) → required_int z ≡ true → z ≢ pos 0
  pub required_length_nonzero : (n : ℕ) → required_length n ≡ true → n ≢ 0
  pub required_text_nonempty : (s : String) → required_text s ≡ true → s ≢ ""
  pub min_int_bound : (low z : ℤ) → min_int low z ≡ true → (z ≡ pos 0) ⊎ (low ≤ℤ z)

pub record CreateOrderItemInput : Type 0 where
  pub product_id : Uuid
  pub product_name : String
  pub unit_price : Float64
  pub quantity : ℤ

pub record CreateOrderInput : Type 0 where
  pub customer_id : Uuid
  pub items : List CreateOrderItemInput

-- One field of `validation.ValidateStruct`: its name, whether its rules pass, and the elements of a
-- slice that fail their own `Validate`, by index.
pub record FieldCheck : Type 0 where
  pub name : String
  pub passed : Bool
  pub bad_elements : List (ℕ × Error)

abbrev pub plain : String → Bool → FieldCheck
plain name passed = record { name = name; passed = passed; bad_elements = [] }

-- What becomes of a field: its elements are looked at once its rules have passed.
abbrev pub field_failure : FieldCheck → Option (List (ℕ × Error))
field_failure c =
    if c.passed then (elim c.bad_elements [ [] ↦ none | b ∷ bs ↦ some (b ∷ bs) ]) else some []

abbrev pub with_failure :
    String
    → Option (List (ℕ × Error))
    → List (String × List (ℕ × Error))
    → List (String × List (ℕ × Error))
with_failure name none more = more
with_failure name (some bad) more = (name, bad) ∷ more

-- The fields that fail, each with its failing elements if its own rules pass.
abbrev pub failed_fields : List FieldCheck → List (String × List (ℕ × Error))
failed_fields [] = []
failed_fields (c ∷ rest) = with_failure c.name (field_failure c) (failed_fields rest)

unfoldable pub validate_struct : Rules → List FieldCheck → Option Error
validate_struct r fields = elim (failed_fields fields) [
  | [] ↦ none
  | bad ∷ more ↦ some (r.failure (bad ∷ more))
]

unfoldable pub validate_item : Rules → CreateOrderItemInput → Option Error
unfolding validate_struct
validate_item r i = validate_struct r (
    plain "ProductID" (r.required_uuid i.product_id)
    ∷ plain "ProductName" (r.required_text i.product_name)
    ∷ plain "UnitPrice" (r.min_float 0 i.unit_price)
    ∷ plain "Quantity" (r.required_int i.quantity && r.min_int (pos 1) i.quantity)
    ∷ [])

unfoldable pub validate_items : Rules → ℕ → List CreateOrderItemInput → Option Error
validate_items r index [] = none
validate_items r index (item ∷ items) =
    let rest = validate_items r (index + 1) items in
    elim (validate_item r item) [ some e ↦ some (Error.indexed "items" index e) | none ↦ rest ]

-- ozzo-validation calls the `Validate` of every element of a slice that it is given.
unfoldable pub bad_items : Rules → ℕ → List CreateOrderItemInput → List (ℕ × Error)
unfolding validate_item
bad_items r index [] = []
bad_items r index (item ∷ items) =
    let rest = bad_items r (index + 1) items in
    elim (validate_item r item) [ some e ↦ (index, e) ∷ rest | none ↦ rest ]

unfoldable pub validate_fields : Rules → CreateOrderInput → Option Error
unfolding validate_struct bad_items
validate_fields r i = validate_struct r (
    plain "CustomerID" (r.required_uuid i.customer_id)
    ∷ (record {
      name = "Items";
      passed = r.required_length (length i.items) && r.length_at_least 1 (length i.items);
      bad_elements = bad_items r 0 i.items;
    })
    ∷ [])

unfoldable pub validate : Rules → CreateOrderInput → Option Error
unfolding validate_fields validate_items validate_item
validate r i = elim (validate_fields r i) [ some e ↦ some e | none ↦ validate_items r 0 i.items ]
