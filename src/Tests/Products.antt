-- ===== src/Tests/Products.antt =====
-- The catalog's theorems, and the order server's, at concrete data.
use text.Mathlib.Text.{◌==◌ as str_eq}
use go_commerce_microservice.Prelude.{◌≡◌, refl, false, none, some, List, [], ◌∷◌, if◌then◌else◌}
use go_commerce_microservice.Prelude.Int.{pos}
use go_commerce_microservice.Json.{malformed}
use go_commerce_microservice.Sql.{ok, fine, statement}
use go_commerce_microservice.Sql.Rows.{any, insert_unique}
use go_commerce_microservice.Catalog.Read.{
  Product, Store, Faults, Command, has_message_id, upsert, delete_products, product_is_processed,
  product_save_processed, insert_message, project, unless_processed, handle_product_created,
  handle_get_products, handle_get_products_beside,
}
use go_commerce_microservice.Catalog.Read.Projected.{
  product_of, shown_after_event, overtaken_read_hides,
}
use go_commerce_microservice.Catalog.Write as Write
use go_commerce_microservice.Catalog.Write.{ProductDb, create_product}
use go_commerce_microservice.Catalog.Write.Created.{Outcome, create_product_atomic}
use go_commerce_microservice.Order.Server.{CreateOrderItem, CreateOrderRequest}
use go_commerce_microservice.Tests.Data.{uuids, floats}
use go_commerce_microservice.Prelude.{◌↔◌, map, All, arith}
use go_commerce_microservice.Prelude.Int.{IsInt32}
use go_commerce_microservice.Gateway as Gateway
use go_commerce_microservice.Gateway.{from_order_request, from_order_response, write_service_error}
use go_commerce_microservice.Gateway.Converted.{
  shown_line, order_line, quantities_kept_iff, lines_shown,
}
use go_commerce_microservice.Order.Server as Server
use go_commerce_microservice.Order.Server.{Code, service_error, to_proto_order}
use go_commerce_microservice.Tests.Data.{pen_order}
use go_commerce_microservice.Prelude.{true}
use go_commerce_microservice.Messaging.Delivery.{Delivery}
use go_commerce_microservice.Catalog.Write.{product_payload}
use go_commerce_microservice.Catalog.Consumer as Consumer
use go_commerce_microservice.Catalog.Consumer.{after_command, consume_product_created}
use go_commerce_microservice.Catalog.Consumer.Decoded.{projection, product_round_trip}
use go_commerce_microservice.Tests.Data.{delivery}

abbrev pen : Product
pen = record { id = "|"; name = "pen"; description = "blue"; price = 3; status = "ACTIVE" }

abbrev cached : Store
cached = record { products = []; cache = some []; inbox = [] }

abbrev faults : Faults
faults = record {
  is_processed = fine;
  upsert = fine;
  delete_products = fine;
  save_processed = fine;
}

abbrev command : Command
command = record { message_id = "||"; product = pen; payload = malformed }

new_message : any (has_message_id command.message_id) cached.inbox ≡ false
unfolding any
new_message = refl

handled : (handle_product_created faults 9 command cached).0 ≡ ok tt
unfolding handle_product_created product_is_processed unless_processed project upsert
    delete_products product_save_processed insert_message insert_unique statement any
handled = refl

shown_after_event_example :
    (ps : List Product) × ((handle_get_products fine fine fine
        (handle_product_created faults 9 command cached).1).0
      ≡ ok ps)
    × (product_of "|" ps ≡ (if str_eq pen.id "|" then some pen else product_of "|" []))
shown_after_event_example = shown_after_event faults 9 command cached "|" new_message handled

abbrev empty : Store
empty = record { products = []; cache = none; inbox = [] }

new_to_empty : any (has_message_id command.message_id) empty.inbox ≡ false
unfolding any
new_to_empty = refl

handled_on_empty : (handle_product_created faults 9 command empty).0 ≡ ok tt
unfolding handle_product_created product_is_processed unless_processed project upsert
    delete_products product_save_processed insert_message insert_unique statement any
handled_on_empty = refl

overtaken_read_hides_example :
    let r =
      (handle_get_products_beside
        (λ t. (handle_product_created faults 9 command t).1)
        fine
        fine
        fine
        empty).1 in
    (product_of "|" r.products ≡ some pen)
    × ((ps : List Product) × ((handle_get_products fine fine fine r).0 ≡ ok ps)
        × (product_of "|" ps ≡ none))
overtaken_read_hides_example =
    overtaken_read_hides faults 9 command empty refl new_to_empty handled_on_empty refl

abbrev write_faults : Write.Faults
write_faults = record { create_product = fine; create_outbox = fine; commit = fine }

abbrev write_draws : Write.Draws
write_draws = record { product_id = 60; now = 3; event_id = 61; outbox_id = 62; outbox_time = 4 }

abbrev no_products : ProductDb
no_products = record { products = []; outbox = [] }

create_product_atomic_example :
    Outcome uuids floats write_faults write_draws " pen " "blue" 3 no_products
      (create_product uuids floats write_faults write_draws " pen " "blue" 3 no_products)
create_product_atomic_example =
    create_product_atomic uuids floats write_faults write_draws " pen " "blue" 3 no_products

abbrev ordered_pen : CreateOrderItem
ordered_pen = record {
  product_id = "|||||";
  product_name = "pen";
  unit_price = 3;
  quantity = pos 2;
}

abbrev order_request : CreateOrderRequest
order_request = record { customer_id = "||"; items = ordered_pen ∷ [] }

-- A quantity of 2^32 + 1, which becomes 1.
abbrev big_request : Gateway.CreateOrderRequest
big_request = record {
  customer_id = "||";
  order_items =
      record {
        product_id = "|||||";
        product_name = "pen";
        unit_price = 3;
        quantity = pos 4294967297;
      }
      ∷ [];
}

quantities_kept_iff_example :
    (map (λ (i : Server.CreateOrderItem). i.quantity) (from_order_request big_request).items
      ≡ map (λ (i : Gateway.CreateOrderItem). i.quantity) big_request.order_items)
    ↔ All (λ i. IsInt32 i.quantity) big_request.order_items
quantities_kept_iff_example = quantities_kept_iff big_request

lines_shown_example :
    map shown_line (from_order_response (to_proto_order uuids pen_order)).items
    ≡ map (order_line uuids) pen_order.items
lines_shown_example = lines_shown uuids pen_order ((omega arith, omega arith), tt)

abbrev written_pen : Write.Product
written_pen = record {
  id = 60;
  name = "pen";
  description = "blue";
  price = 3;
  status = "ACTIVE";
  created_at = 3;
  updated_at = 3;
}

abbrev product_delivery : Delivery
product_delivery = record delivery { body = product_payload uuids 61 written_pen }

abbrev product_turn : Consumer.Turn
product_turn = record { faults = faults; now = 9; channel_open = true }

product_round_trip_example :
    consume_product_created floats product_turn product_delivery cached
    ≡ after_command product_turn (
        handle_product_created faults 9
          (record {
            message_id = uuids.print 61;
            product = projection uuids written_pen;
            payload = product_delivery.body;
          })
          cached)
product_round_trip_example =
    product_round_trip uuids floats 61 written_pen product_turn product_delivery cached refl
