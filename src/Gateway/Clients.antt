-- ===== src/Gateway/Clients.antt =====
-- api-gateway/internal/adapter/grpc-client: the calls of the gateway's clients.
use go_commerce_microservice.Prelude.{Bool, false, String, List}
use go_commerce_microservice.External.{Float64}
use go_commerce_microservice.Error.{Error}
use go_commerce_microservice.Sql.{Result, ok, err}
use go_commerce_microservice.Order.Server as Server
use go_commerce_microservice.Order.Server.{Code, Text, Answer, ProtoOrder}
use go_commerce_microservice.Catalog.Write.Server.{CreateProductRequest, ProtoProduct}
use go_commerce_microservice.Catalog.Search.Server.{ListedProduct}
use go_commerce_microservice.Gateway.{CreateOrderRequest, from_order_request}

-- The codes that the transport itself gives an error.
pub data WireCode : Type 0 where
  deadline_exceeded canceled unavailable internal : WireCode

-- What becomes of a call: it goes through; it never arrives; or it is served and its answer lost.
-- The flag says whether the client's own deadline has passed.
pub data Wire : Type 0 where
  through : Wire
  undelivered unanswered : Bool → WireCode → Wire

-- What the client returns.
pub data Reply (A : Type 0) : Type 0 where
  reply : A → Reply A
  failed : Bool → Code → Reply A

abbrev pub code_of : WireCode → Code
code_of WireCode.deadline_exceeded = Code.deadline_exceeded
code_of WireCode.canceled = Code.canceled
code_of WireCode.unavailable = Code.unavailable
code_of WireCode.internal = Code.internal

abbrev pub of_answer : {A : Type 0} → Answer A → Reply A
of_answer (Answer.reply a) = Reply.reply a
of_answer (Answer.failure st) = Reply.failed false st.code

module _ {A S : Type 0} where
  unfoldable pub call : Wire → (S → Answer A × S) → S → Reply A × S
  call Wire.through rpc s = let (answer, s') = rpc s in (of_answer answer, s')
  call (Wire.undelivered late c) rpc s = (Reply.failed late (code_of c), s)
  call (Wire.unanswered late c) rpc s =
      let (answer, s') = rpc s in (Reply.failed late (code_of c), s')

-- An error that is no status gets the code that grpc-go gives it.
abbrev pub answer_of : {A : Type 0} → (Error → Code) → Result A → Answer A
answer_of code (ok a) = Answer.reply a
answer_of code (err e) = Answer.failure (record { code = code e; text = Text.of_error e })

module _ {S : Type 0} (wire : Wire) where
  -- `OrderClient.CreateOrder`
  unfoldable pub client_create_order :
      (Server.CreateOrderRequest → S → Answer ProtoOrder × S)
      → CreateOrderRequest
      → S
      → Reply ProtoOrder × S
  client_create_order rpc req = call wire (rpc (from_order_request req))

  -- `OrderClient.GetOrder`
  unfoldable pub client_get_order :
      (String → S → Answer ProtoOrder × S) → String → S → Reply ProtoOrder × S
  client_get_order rpc order_id = call wire (rpc order_id)

  -- `OrderClient.GetOrders`
  unfoldable pub client_get_orders :
      (S → Answer (List ProtoOrder) × S) → S → Reply (List ProtoOrder) × S
  client_get_orders rpc = call wire rpc

  -- `WriteCatalogClient.CreateProducts`
  unfoldable pub client_create_products :
      (CreateProductRequest → S → Answer ProtoProduct × S)
      → String
      → String
      → Float64
      → S
      → Reply ProtoProduct × S
  client_create_products rpc name description price =
      call wire (rpc (record { name = name; description = description; price = price }))

  -- `ReadCatalogClient.GetProducts`
  unfoldable pub client_get_products :
      (Error → Code) → (S → Result (List ListedProduct) × S) → S → Reply (List ListedProduct) × S
  client_get_products code rpc = call wire (λ s. let (r, s') = rpc s in (answer_of code r, s'))

  -- `ReadCatalogClient.SearchProducts`
  unfoldable pub client_search_products :
      (Error → Code)
      → (String → Result (List ListedProduct))
      → String
      → S
      → Reply (List ListedProduct) × S
  client_search_products code rpc query = call wire (λ s. (answer_of code (rpc query), s))
