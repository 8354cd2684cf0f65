-- ===== src/Gateway/Placed.antt =====
-- An order that is placed through the gateway: what the client sees, and what is recorded then.
use go_commerce_microservice.Prelude.{ℕ, ◌≡◌, ◌≢◌}
use go_commerce_microservice.Error.{Error}
use go_commerce_microservice.External.{UuidText, FloatOps}
use go_commerce_microservice.Order.Domain.{Order}
use go_commerce_microservice.Order.Input.{CreateOrderInput}
use go_commerce_microservice.Order.Schema.{OrderDb}
use go_commerce_microservice.Order.Service.{Draws, ordered}
use go_commerce_microservice.Order.Server as Server
use go_commerce_microservice.Order.Server.{Code, Status, Answer, ProtoOrder, to_proto_order}
use go_commerce_microservice.Order.Server.Answers.{IsInput, after}
use go_commerce_microservice.Gateway.{
  CreateOrderRequest, OrderResponse, from_order_request, from_order_response,
}
use go_commerce_microservice.Gateway.Handlers.{Response}

-- A refusal as an invalid argument is not said of a request that was carried out.
abbrev IsBlameless : OrderDb → Answer ProtoOrder × OrderDb → Type 0
IsBlameless s out =
    (st : Status) → out.0 ≡ Answer.failure st → st.code ≡ Code.invalid_argument → out.1 ≡ s

module _ (u : UuidText) (fl : FloatOps) (d : Draws) (req : CreateOrderRequest) (s : OrderDb) where
  abbrev asked : Server.CreateOrderRequest
  asked = from_order_request req

  -- What the client of the gateway sees, with what is recorded.
  pub data Placement : Response OrderResponse × OrderDb → Type 0 where
    created :
        (input : CreateOrderInput)
        → IsInput u fl d asked s input
        → Placement (
          Response.shown 201 (from_order_response (to_proto_order u (ordered fl d input))),
          after u fl d asked s input,
        )
    unchanged : {status : ℕ} → Placement (Response.refused status, s)
    in_doubt :
        (input : CreateOrderInput) {status : ℕ}
        → IsInput u fl d asked s input
        → status ≢ 400
        → Placement (Response.refused status, after u fl d asked s input)
