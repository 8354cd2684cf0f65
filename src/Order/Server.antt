-- ===== src/Order/Server.antt =====
-- services/order-service/internal/adapter/grpc/order_server.go: the gRPC server of the orders. The
-- messages are those that the server reads and fills.
pub mod Answers
use go_commerce_microservice.Prelude.{
  ℕ, String, Option, none, some, List, [], ◌∷◌, map, if◌then◌else◌,
}
use go_commerce_microservice.Prelude.Int.{ℤ, to_int32}
use go_commerce_microservice.Error.{Error, Sentinel, is_error}
use go_commerce_microservice.External.{Uuid, Float64, UuidText, FloatOps}
use go_commerce_microservice.Sql.{Result, ok, err, Fault, Call}
use go_commerce_microservice.Order.Domain.{Order, OrderItems, OrderStatus}
use go_commerce_microservice.Order.Input.{Rules, CreateOrderInput, CreateOrderItemInput, validate}
use go_commerce_microservice.Order.Schema.{OrderDb}
use go_commerce_microservice.Order.Repository.{Faults, get_order, get_orders}
use go_commerce_microservice.Order.Service.{Draws, create_order}

pub data Code : Type 0 where
  invalid_argument internal deadline_exceeded canceled not_found unavailable unknown : Code

-- The text of a status: a literal, or an error's.
pub data Text : Type 0 where
  literal : String → Text
  of_error : Error → Text

pub record Status : Type 0 where
  pub code : Code
  pub text : Text

pub record CreateOrderItem : Type 0 where
  pub product_id : String
  pub product_name : String
  pub unit_price : Float64
  pub quantity : ℤ

pub record CreateOrderRequest : Type 0 where
  pub customer_id : String
  pub items : List CreateOrderItem

pub record ProtoOrderItem : Type 0 where
  pub id : String
  pub order_id : String
  pub product_id : String
  pub product_name : String
  pub unit_price : Float64
  pub quantity : ℤ
  pub subtotal : Float64

pub record ProtoOrder : Type 0 where
  pub id : String
  pub customer_id : String
  pub status : OrderStatus
  pub total_amount : Float64
  pub items : List ProtoOrderItem

-- What a call answers: a message, or a status.
pub data Answer (A : Type 0) : Type 0 where
  reply : A → Answer A
  failure : Status → Answer A

abbrev invalid : String → Status
invalid what = record { code = Code.invalid_argument; text = Text.literal what }

unfoldable pub service_error : Error → Code → Status
service_error e fallback =
    if is_error e Sentinel.deadline_exceeded
    then record { code = Code.deadline_exceeded; text = Text.literal "request timed out" }
    else if is_error e Sentinel.canceled
    then record { code = Code.canceled; text = Text.literal "request canceled" }
    else if is_error e Sentinel.order_not_found
    then record { code = Code.not_found; text = Text.literal "order not found" }
    else record { code = fallback; text = Text.of_error e }

unfoldable pub to_proto_order_item : UuidText → OrderItems → ProtoOrderItem
to_proto_order_item u item = record {
  id = u.print item.id;
  order_id = u.print item.order_id;
  product_id = u.print item.product_id;
  product_name = item.product_name;
  unit_price = item.unit_price;
  quantity = to_int32 item.quantity;
  subtotal = item.subtotal;
}

unfoldable pub to_proto_order : UuidText → Order → ProtoOrder
to_proto_order u order = record {
  id = u.print order.id;
  customer_id = u.print order.customer_id;
  status = order.status;
  total_amount = order.total_amount;
  items = map (to_proto_order_item u) order.items;
}

-- The loop over the request's items stops at the first identifier that does not parse.
unfoldable pub items_input : UuidText → List CreateOrderItem → Option (List CreateOrderItemInput)
items_input u [] = some []
items_input u (item ∷ items) =
    let rest = items_input u items in
    elim (u.parse item.product_id) [
      | none ↦ none
      | some product_id ↦ elim rest [
        | none ↦ none
        | some more ↦ some (
            (record {
              product_id = product_id;
              product_name = item.product_name;
              unit_price = item.unit_price;
              quantity = item.quantity;
            })
            ∷ more)
      ]
    ]

unfoldable pub answered : {A B : Type 0} → (A → B) → Result A × OrderDb → Answer B × OrderDb
answered f (ok a, s) = (Answer.reply (f a), s)
answered f (err e, s) = (Answer.failure (service_error e Code.internal), s)

unfoldable pub create_valid :
    Rules
    → UuidText
    → FloatOps
    → Faults
    → Draws
    → CreateOrderInput
    → Option Error
    → OrderDb
    → Answer ProtoOrder × OrderDb
unfolding answered
create_valid r u fl f d input (some e) s =
    (Answer.failure (record { code = Code.invalid_argument; text = Text.of_error e }), s)
create_valid r u fl f d input none s = answered (to_proto_order u) (create_order r u fl f d input s)

unfoldable pub with_items :
    Rules
    → UuidText
    → FloatOps
    → Faults
    → Draws
    → Uuid
    → Option (List CreateOrderItemInput)
    → OrderDb
    → Answer ProtoOrder × OrderDb
unfolding create_valid
with_items r u fl f d customer_id none s = (Answer.failure (invalid "invalid product_id"), s)
with_items r u fl f d customer_id (some items) s =
    let input : CreateOrderInput = record { customer_id = customer_id; items = items } in
    create_valid r u fl f d input (validate r input) s

unfoldable pub with_customer :
    Rules
    → UuidText
    → FloatOps
    → Faults
    → Draws
    → CreateOrderRequest
    → Option Uuid
    → OrderDb
    → Answer ProtoOrder × OrderDb
unfolding with_items
with_customer r u fl f d req none s = (Answer.failure (invalid "invalid customer_id"), s)
with_customer r u fl f d req (some customer_id) s =
    with_items r u fl f d customer_id (items_input u req.items) s

unfoldable pub rpc_create_order :
    Rules
    → UuidText
    → FloatOps
    → Faults
    → Draws
    → CreateOrderRequest
    → OrderDb
    → Answer ProtoOrder × OrderDb
unfolding with_customer
rpc_create_order r u fl f d req s = with_customer r u fl f d req (u.parse req.customer_id) s

unfoldable pub found : UuidText → Fault → Option Uuid → OrderDb → Answer ProtoOrder × OrderDb
unfolding answered
found u f none s = (Answer.failure (invalid "invalid order_id"), s)
found u f (some order_id) s = answered (to_proto_order u) (get_order f order_id s)

unfoldable pub rpc_get_order : UuidText → Fault → String → OrderDb → Answer ProtoOrder × OrderDb
unfolding found
rpc_get_order u f order_id s = found u f (u.parse order_id) s

unfoldable pub rpc_get_orders : UuidText → Fault → OrderDb → Answer (List ProtoOrder) × OrderDb
unfolding answered
rpc_get_orders u f s = answered (map (to_proto_order u)) (get_orders f s)
