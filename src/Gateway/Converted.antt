-- ===== src/Gateway/Converted.antt =====
-- What the gateway keeps of a request and of an answer.
use go_commerce_microservice.Prelude.{
  ◌≡◌, ◌↔◌, refl, String, false, List, [], ◌∷◌, map, All, if◌then◌else◌, arith,
}
use go_commerce_microservice.Prelude.Int.{ℤ, to_int32, IsInt32, to_int32_iff}
use go_commerce_microservice.Error.{Error, Sentinel, is_error}
use go_commerce_microservice.External.{Float64, UuidText}
use go_commerce_microservice.Order.Domain.{Order, OrderItems}
use go_commerce_microservice.Order.Server as Server
use go_commerce_microservice.Order.Server.{Code, service_error, to_proto_order, to_proto_order_item}
use go_commerce_microservice.Gateway.{
  CreateOrderItem, CreateOrderRequest, OrderItem, from_request_item, from_order_request,
  from_response_item, from_order_response, write_service_error,
}

quantities_kept :
    (items : List CreateOrderItem)
    → All (λ i. IsInt32 i.quantity) items
    → map (λ (i : Server.CreateOrderItem). i.quantity) (map from_request_item items)
      ≡ map (λ (i : CreateOrderItem). i.quantity) items
unfolding from_request_item
quantities_kept [] h = refl
quantities_kept (i ∷ items) (h, hs) =
    rw ((to_int32_iff i.quantity).1 h, quantities_kept items hs) refl

heads_tails : (a b : ℤ) (xs ys : List ℤ) → a ∷ xs ≡ b ∷ ys → (a ≡ b) × (xs ≡ ys)
heads_tails a b xs ys h = (ground arith, ground arith)

kept_quantities :
    (items : List CreateOrderItem)
    → map (λ (i : Server.CreateOrderItem). i.quantity) (map from_request_item items)
      ≡ map (λ (i : CreateOrderItem). i.quantity) items
    → All (λ i. IsInt32 i.quantity) items
unfolding from_request_item
kept_quantities [] h = tt
kept_quantities (i ∷ items) h =
    let (head, tail) =
      heads_tails (to_int32 i.quantity) i.quantity
        (map (λ (i : Server.CreateOrderItem). i.quantity) (map from_request_item items))
        (map (λ (i : CreateOrderItem). i.quantity) items) h in
    ((to_int32_iff i.quantity).0 head, kept_quantities items tail)

-- The order service is asked for the quantities that the gateway's client asked for exactly when
-- each of them fits a signed 32-bit integer; the gateway refuses no request for its quantities.
pub quantities_kept_iff :
    (req : CreateOrderRequest)
    → (map (λ (i : Server.CreateOrderItem). i.quantity) (from_order_request req).items
        ≡ map (λ (i : CreateOrderItem). i.quantity) req.order_items)
      ↔ All (λ i. IsInt32 i.quantity) req.order_items
unfolding from_order_request
quantities_kept_iff req = (kept_quantities req.order_items, quantities_kept req.order_items)

-- The HTTP status that a client sees of an error in the order service, while the gateway's own
-- deadline has not passed: 504 for a passed deadline, 404 for an unknown order, and otherwise 500,
-- a canceled call among them.
pub error_status :
    (e : Error)
    → write_service_error false (service_error e Code.internal).code 500 ≡ (
        if is_error e Sentinel.deadline_exceeded
        then 504
        else if is_error e Sentinel.canceled
        then 500
        else if is_error e Sentinel.order_not_found
        then 404
        else 500)
unfolding write_service_error service_error
error_status e = ground arith

-- A line as the client sees it.
abbrev pub Line : Type 0
Line = String × String × Float64 × ℤ × Float64

abbrev pub shown_line : OrderItem → Line
shown_line i = (i.product_id, i.product_name, i.unit_price, i.quantity, i.subtotal)

abbrev pub order_line : UuidText → OrderItems → Line
order_line u i = (u.print i.product_id, i.product_name, i.unit_price, i.quantity, i.subtotal)

items_shown :
    (u : UuidText) (items : List OrderItems)
    → All (λ i. IsInt32 i.quantity) items
    → map shown_line (map from_response_item (map (to_proto_order_item u) items))
      ≡ map (order_line u) items
unfolding from_response_item to_proto_order_item
items_shown u [] h = refl
items_shown u (i ∷ items) (h, hs) = rw ((to_int32_iff i.quantity).1 h, items_shown u items hs) refl

-- What the client sees of an order's lines: the product, the name, the unit price, the quantity
-- and the subtotal of each line, in order, where the quantities are 32-bit integers.
pub lines_shown :
    (u : UuidText) (order : Order)
    → All (λ i. IsInt32 i.quantity) order.items
    → map shown_line (from_order_response (to_proto_order u order)).items
      ≡ map (order_line u) order.items
unfolding from_order_response to_proto_order
lines_shown u order h = items_shown u order.items h
