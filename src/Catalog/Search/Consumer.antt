-- ===== src/Catalog/Search/Consumer.antt =====
-- services/catalog-read-service/internal/adapter/messaging/product_search_index_consumer.go.
use go_commerce_microservice.Prelude.{String, Bool, true, false, Option, none, some}
use go_commerce_microservice.External.{Float64, FloatOps}
use go_commerce_microservice.Sql.{Result, ok, err}
use go_commerce_microservice.Messaging.Delivery.{
  Delivery, Settlement, acked, requeued, discarded, open_,
}
use go_commerce_microservice.Catalog.Read.{Product}
use go_commerce_microservice.Catalog.Consumer.{ProductCreatedEvent, unmarshal_product}
use go_commerce_microservice.Catalog.Search.{Exchange, Cluster, handle_index_product}

-- What the environment does to one delivery; a broken channel loses its `Ack` or `Nack`.
pub record Turn : Type 0 where
  pub finite : Float64 → Bool
  pub generated : String
  pub exchange : Exchange
  pub channel_open : Bool

unfoldable pub settle_index : Turn → Settlement → Settlement
settle_index t s = elim t.channel_open [ true ↦ s | false ↦ open_ ]

unfoldable pub product_of_event : ProductCreatedEvent → Product
product_of_event event = record {
  id = event.product_id;
  name = event.name;
  description = event.description;
  price = event.price;
  status = event.status;
}

unfoldable pub after_index : Turn → Result (Unit {0}) × Cluster → Settlement × Cluster
unfolding settle_index
after_index t (ok u, c) = (settle_index t acked, c)
after_index t (err e, c) = (settle_index t requeued, c)

unfoldable pub with_search_event :
    Turn → Option ProductCreatedEvent → Cluster → Settlement × Cluster
unfolding after_index settle_index product_of_event
with_search_event t none c = (settle_index t discarded, c)
with_search_event t (some event) c =
    after_index t (handle_index_product t.finite t.generated t.exchange (product_of_event event) c)

unfoldable pub consume_search_index : FloatOps → Turn → Delivery → Cluster → Settlement × Cluster
unfolding with_search_event
consume_search_index fl t d c = with_search_event t (unmarshal_product fl d.body) c
