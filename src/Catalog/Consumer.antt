-- ===== src/Catalog/Consumer.antt =====
-- services/catalog-read-service/internal/adapter/messaging/product_created_consumer.go.
pub mod Decoded
use go_commerce_microservice.Prelude.{Bool, true, false, Option, none, some, String, ◌>>=◌}
use go_commerce_microservice.External.{Float64, FloatOps, Time}
use go_commerce_microservice.Json.{Json, Fields, Body, malformed, document, text_field, real_field}
use go_commerce_microservice.Sql.{Result, ok, err}
use go_commerce_microservice.Messaging.Delivery.{
  Delivery, Settlement, acked, requeued, discarded, open_,
}
use go_commerce_microservice.Catalog.Read.{Product, Store, Faults, Command, handle_product_created}

pub record ProductCreatedEvent : Type 0 where
  pub message_id : String
  pub product_id : String
  pub name : String
  pub description : String
  pub price : Float64
  pub status : String

unfoldable pub product_event_of_fields : FloatOps → Fields → Option ProductCreatedEvent
product_event_of_fields fl fs = do
  message_id ← text_field "message_id" fs (some "")
  product_id ← text_field "product_id" fs (some "")
  name ← text_field "name" fs (some "")
  description ← text_field "description" fs (some "")
  price ← real_field fl "price" fs (some 0)
  status ← text_field "status" fs (some "")
  some (record {
    message_id = message_id;
    product_id = product_id;
    name = name;
    description = description;
    price = price;
    status = status;
  })

abbrev no_event : ProductCreatedEvent
no_event = record {
  message_id = "";
  product_id = "";
  name = "";
  description = "";
  price = 0;
  status = "";
}

unfoldable pub unmarshal_product : FloatOps → Body → Option ProductCreatedEvent
unfolding product_event_of_fields
unmarshal_product fl malformed = none
unmarshal_product fl (document (Json.object fs)) = product_event_of_fields fl fs
unmarshal_product fl (document Json.null) = some no_event
unmarshal_product fl (document _) = none

unfoldable pub command_of : Body → ProductCreatedEvent → Command
command_of body event = record {
  message_id = event.message_id;
  product = record {
    id = event.product_id;
    name = event.name;
    description = event.description;
    price = event.price;
    status = event.status;
  };
  payload = body;
}

-- What the environment does to one delivery; a broken channel loses its `Ack` or `Nack`.
pub record Turn : Type 0 where
  pub faults : Faults
  pub now : Time
  pub channel_open : Bool

unfoldable pub settle_product : Turn → Settlement → Settlement
settle_product t s = elim t.channel_open [ true ↦ s | false ↦ open_ ]

unfoldable pub after_command : Turn → Result (Unit {0}) × Store → Settlement × Store
unfolding settle_product
after_command t (ok u, s) = (settle_product t acked, s)
after_command t (err e, s) = (settle_product t requeued, s)

unfoldable pub with_product_event :
    Turn → Delivery → Option ProductCreatedEvent → Store → Settlement × Store
unfolding after_command settle_product
with_product_event t d none s = (settle_product t discarded, s)
with_product_event t d (some event) s =
    after_command t (handle_product_created t.faults t.now (command_of d.body event) s)

unfoldable pub consume_product_created : FloatOps → Turn → Delivery → Store → Settlement × Store
unfolding with_product_event
consume_product_created fl t d s = with_product_event t d (unmarshal_product fl d.body) s
