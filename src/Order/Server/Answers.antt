-- ===== src/Order/Server/Answers.antt =====
-- What the gRPC server answers, and what it has recorded then.
use go_commerce_microservice.Prelude.{◌≡◌, none, some}
use go_commerce_microservice.Error.{Error}
use go_commerce_microservice.External.{UuidText, FloatOps}
use go_commerce_microservice.Sql.{lost}
use go_commerce_microservice.Order.Domain.{Order}
use go_commerce_microservice.Order.Input.{Rules, CreateOrderInput, validate}
use go_commerce_microservice.Order.Schema.{OrderDb}
use go_commerce_microservice.Order.Repository.{Faults}
use go_commerce_microservice.Order.Service.{Draws, ordered, outbox_message}
use go_commerce_microservice.Order.Creation.{recorded}
use go_commerce_microservice.Order.Server.{
  Status, CreateOrderRequest, ProtoOrder, Answer, to_proto_order, items_input,
}

module _ (u : UuidText) (fl : FloatOps) (d : Draws) (req : CreateOrderRequest) (s : OrderDb) where
  -- The input says what the request says.
  pub record IsInput (input : CreateOrderInput) : Type 0 where
    pub customer : u.parse req.customer_id ≡ some input.customer_id
    pub lines : items_input u req.items ≡ some input.items

  -- The tables after the order of this input is recorded.
  abbrev pub after : CreateOrderInput → OrderDb
  after input = recorded (ordered fl d input) (outbox_message u d (ordered fl d input)) s

  module _ (r : Rules) (f : Faults) where
    -- How a `CreateOrder` request may end: refused or failed with nothing changed; answered with
    -- the order that is recorded, of an input that passes the checks; or failed with that order
    -- recorded, when the commit's reply is lost.
    pub data Served : Answer ProtoOrder × OrderDb → Type 0 where
      refused : {st : Status} → Served (Answer.failure st, s)
      created :
          (input : CreateOrderInput)
          → IsInput input
          → validate r input ≡ none
          → Served (Answer.reply (to_proto_order u (ordered fl d input)), after input)
      in_doubt :
          (input : CreateOrderInput) {st : Status} {e : Error}
          → IsInput input
          → validate r input ≡ none
          → f.commit ≡ lost e
          → Served (Answer.failure st, after input)
