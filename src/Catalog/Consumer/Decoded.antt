-- ===== src/Catalog/Consumer/Decoded.antt =====
-- What the read side decodes of the write side's event.
use go_commerce_microservice.Prelude.{◌≡◌, refl, ap, ◌∙◌, some}
use go_commerce_microservice.External.{Uuid, UuidText, FloatOps}
use go_commerce_microservice.Messaging.Delivery.{Delivery}
use go_commerce_microservice.Catalog.Write as Write
use go_commerce_microservice.Catalog.Write.{product_payload}
use go_commerce_microservice.Catalog.Read.{Product, Store, handle_product_created}
use go_commerce_microservice.Catalog.Consumer.{
  Turn, product_event_of_fields, unmarshal_product, command_of, after_command, with_product_event,
  consume_product_created,
}

-- A product as the read side shows it.
abbrev pub projection : UuidText → Write.Product → Product
projection u p = record {
  id = u.print p.id;
  name = p.name;
  description = p.description;
  price = p.price;
  status = p.status;
}

pub decoded :
    (u : UuidText) (fl : FloatOps) (event_id : Uuid) (p : Write.Product)
    → unmarshal_product fl (product_payload u event_id p)
      ≡ some (record {
        message_id = u.print event_id;
        product_id = u.print p.id;
        name = p.name;
        description = p.description;
        price = p.price;
        status = p.status;
      })
unfolding unmarshal_product product_payload product_event_of_fields
decoded u fl event_id p = refl

-- A delivery of the `ProductCreated` event that the write side has made of a product lets the read
-- side handle exactly that product: the same name, description, price and status, under the
-- printed identifier, with the event's identifier as the message's; the delivery is settled by the
-- handler's result.
pub product_round_trip :
    (u : UuidText) (fl : FloatOps) (event_id : Uuid) (p : Write.Product) (t : Turn) (d : Delivery)
    (s : Store)
    → d.body ≡ product_payload u event_id p
    → consume_product_created fl t d s
      ≡ after_command t (
          handle_product_created t.faults t.now
            (record { message_id = u.print event_id; product = projection u p; payload = d.body })
            s)
unfolding consume_product_created with_product_event command_of
product_round_trip u fl event_id p t d s h =
    rw (ap (unmarshal_product fl) h ∙ decoded u fl event_id p) refl
