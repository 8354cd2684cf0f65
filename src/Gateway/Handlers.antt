-- ===== src/Gateway/Handlers.antt =====
-- api-gateway/internal/adapter/http/handler: order.go, and product.go with dto/product.go. A body
-- that does not bind is `none`; an answer is its HTTP status with what it shows.
use go_commerce_microservice.Prelude.{
  ℕ, Bool, ◌&&◌, Option, none, some, String, List, map, if◌then◌else◌,
}
use go_commerce_microservice.External.{Float64, UuidText, FloatOps}
use go_commerce_microservice.Sql.{Fault}
use go_commerce_microservice.Order.Input.{Rules}
use go_commerce_microservice.Order.Schema.{OrderDb}
use go_commerce_microservice.Order.Repository as OrderRepo
use go_commerce_microservice.Order.Service as OrderService
use go_commerce_microservice.Order.Server.{Code, rpc_create_order, rpc_get_order, rpc_get_orders}
use go_commerce_microservice.Catalog.Write.{ProductDb, Faults, Draws}
use go_commerce_microservice.Catalog.Write.Server.{
  CreateProductRequest, ProtoProduct, rpc_create_product,
}
use go_commerce_microservice.Error.{Error}
use go_commerce_microservice.Json.{Body}
use go_commerce_microservice.Catalog.Read.{Store}
use go_commerce_microservice.Catalog.Write.{trim_space, is_empty}
use go_commerce_microservice.Catalog.Search.{SearchReply}
use go_commerce_microservice.Catalog.Search.Server.{
  ListedProduct, rpc_get_products, rpc_search_products,
}
use go_commerce_microservice.Gateway.{
  CreateOrderRequest, OrderResponse, from_order_response, from_orders_response, write_service_error,
}
use go_commerce_microservice.Gateway.Clients.{
  Wire, Reply, client_create_order, client_get_order, client_get_orders, client_create_products,
  client_get_products, client_search_products,
}

pub data Response (A : Type 0) : Type 0 where
  shown : ℕ → A → Response A
  refused : ℕ → Response A

-- A client's reply as the handlers write it: the default status of an error is 500.
unfoldable pub respond : {A B S : Type 0} → ℕ → (A → B) → Reply A × S → Response B × S
respond success f (Reply.reply a, s) = (Response.shown success (f a), s)
respond success f (Reply.failed late c, s) = (Response.refused (write_service_error late c 500), s)

module _ (wire : Wire) (u : UuidText) where
  unfoldable pub http_create_order :
      Rules
      → FloatOps
      → OrderRepo.Faults
      → OrderService.Draws
      → Option CreateOrderRequest
      → OrderDb
      → Response OrderResponse × OrderDb
  http_create_order r fl f d none s = (Response.refused 400, s)
  http_create_order r fl f d (some req) s =
      respond 201 from_order_response (client_create_order wire (rpc_create_order r u fl f d) req s)

  unfoldable pub http_get_order : Fault → String → OrderDb → Response OrderResponse × OrderDb
  http_get_order f id s =
      respond 200 from_order_response (client_get_order wire (rpc_get_order u f) id s)

  unfoldable pub http_get_orders : Fault → OrderDb → Response (List OrderResponse) × OrderDb
  http_get_orders f s =
      respond 200 from_orders_response (client_get_orders wire (rpc_get_orders u f) s)

-- The tags of `dto.CreateProductRequest`: the validator's `required` on a text, and `gt=0`.
pub record ProductRules : Type 0 where
  pub required : String → Bool
  pub positive : Float64 → Bool

unfoldable pub product_request_valid : ProductRules → CreateProductRequest → Bool
product_request_valid v req =
    v.required req.name && v.required req.description && v.positive req.price

pub record ProductResponse : Type 0 where
  pub id : String
  pub name : String
  pub description : String
  pub price : Float64

unfoldable pub from_catalog_product : ProtoProduct → ProductResponse
from_catalog_product p = record {
  id = p.id;
  name = p.name;
  description = p.description;
  price = p.price;
}

module _ (wire : Wire) (u : UuidText) where
  unfoldable pub http_create_product :
      ProductRules
      → FloatOps
      → Faults
      → Draws
      → Option CreateProductRequest
      → ProductDb
      → Response ProductResponse × ProductDb
  http_create_product v fl f d none s = (Response.refused 400, s)
  http_create_product v fl f d (some req) s =
      if product_request_valid v req
      then respond 201 from_catalog_product (
          client_create_products wire (rpc_create_product u fl f d) req.name req.description
            req.price s)
      else (Response.refused 400, s)

unfoldable pub from_catalog_products : List ListedProduct → List ProductResponse
from_catalog_products products =
    map (λ p. record { id = p.id; name = p.name; description = p.description; price = p.price })
      products

module _ (wire : Wire) (code : Error → Code) where
  unfoldable pub http_get_products :
      Fault → Fault → Fault → Store → Response (List ProductResponse) × Store
  http_get_products get_fault find_fault set_fault s =
      respond 200 from_catalog_products
        (client_get_products wire code (rpc_get_products get_fault find_fault set_fault) s)

  unfoldable pub http_search_products :
      FloatOps → (Body → ℕ → SearchReply) → String → Store → Response (List ProductResponse) × Store
  http_search_products fl engine q s =
      if is_empty (trim_space q)
      then (Response.refused 400, s)
      else respond 200 from_catalog_products
          (client_search_products wire code (rpc_search_products fl engine) (trim_space q) s)
