-- ===== src/Gateway.antt =====
-- api-gateway/internal: dto/order.go, and the status of adapter/http/handler/error.go.
pub mod Converted
pub mod Clients
pub mod Handlers
pub mod Placed
pub mod Products
use go_commerce_microservice.Prelude.{ℕ, Bool, true, false, ◌||◌, String, List, map, if◌then◌else◌}
use go_commerce_microservice.Prelude.Int.{ℤ, to_int32}
use go_commerce_microservice.External.{Float64}
use go_commerce_microservice.Order.Domain.{OrderStatus}
use go_commerce_microservice.Order.Server
use go_commerce_microservice.Order.Server.{Code, ProtoOrder, ProtoOrderItem}

pub record CreateOrderItem : Type 0 where
  pub product_id : String
  pub product_name : String
  pub unit_price : Float64
  pub quantity : ℤ

pub record CreateOrderRequest : Type 0 where
  pub customer_id : String
  pub order_items : List CreateOrderItem

pub record OrderItem : Type 0 where
  pub id : String
  pub order_id : String
  pub product_id : String
  pub product_name : String
  pub unit_price : Float64
  pub quantity : ℤ
  pub subtotal : Float64

pub record OrderResponse : Type 0 where
  pub id : String
  pub customer_id : String
  pub status : OrderStatus
  pub total_amount : Float64
  pub items : List OrderItem

-- The loop of `FromOrderRequest`.
unfoldable pub from_request_item : CreateOrderItem → Server.CreateOrderItem
from_request_item item = record {
  product_id = item.product_id;
  product_name = item.product_name;
  unit_price = item.unit_price;
  quantity = to_int32 item.quantity;
}

unfoldable pub from_order_request : CreateOrderRequest → Server.CreateOrderRequest
from_order_request order = record {
  customer_id = order.customer_id;
  items = map from_request_item order.order_items;
}

-- The loop of `FromOrderResponse`; an `int32` is an `int`.
unfoldable pub from_response_item : ProtoOrderItem → OrderItem
from_response_item item = record {
  id = item.id;
  order_id = item.order_id;
  product_id = item.product_id;
  product_name = item.product_name;
  unit_price = item.unit_price;
  quantity = item.quantity;
  subtotal = item.subtotal;
}

unfoldable pub from_order_response : ProtoOrder → OrderResponse
from_order_response order = record {
  id = order.id;
  customer_id = order.customer_id;
  status = order.status;
  total_amount = order.total_amount;
  items = map from_response_item order.items;
}

unfoldable pub from_orders_response : List ProtoOrder → List OrderResponse
from_orders_response orders = map from_order_response orders

-- The HTTP status of `writeServiceError` for an error of the given code; `timed_out` says whether
-- the gateway's own deadline has passed.
unfoldable pub write_service_error : Bool → Code → ℕ → ℕ
write_service_error true c default_status = 504
write_service_error false Code.deadline_exceeded default_status = 504
write_service_error false Code.invalid_argument default_status = 400
write_service_error false Code.not_found default_status = 404
write_service_error false Code.unavailable default_status = 502
write_service_error false Code.internal default_status = default_status
write_service_error false Code.canceled default_status = default_status
write_service_error false Code.unknown default_status = default_status
