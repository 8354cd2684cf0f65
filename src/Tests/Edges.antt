-- ===== src/Tests/Edges.antt =====
-- The theorems on the gateway and on the options at concrete data.
use go_commerce_microservice.Prelude.{ℕ, suc, ◌≡◌, refl, true, none, some, [], ◌∷◌}
use text.Mathlib.Text.{◌==◌ as str_eq}
use go_commerce_microservice.Prelude.{not, ltb, arith, inl}
use go_commerce_microservice.Prelude.Int.{pos}
use go_commerce_microservice.Error.{Error, Sentinel}
use go_commerce_microservice.Sql.{ok, fine, lost, statement}
use go_commerce_microservice.Sql.Rows.{any, insert_unique}
use go_commerce_microservice.Messaging.Delivery.{Publishing}
use go_commerce_microservice.Messaging.Retry.{delivery_attempt}
use go_commerce_microservice.Messaging.Retry.Attempts.{fate, IsDeadLetter}
use go_commerce_microservice.Config.{require_all, positive_all}
use go_commerce_microservice.Config.Apps.{GatewayOptions, timeouts_nested, validate_gateway_options}
use go_commerce_microservice.Config.Brokers.{OrderRabbitmqOptions, validate_order_rabbitmq_options}
use go_commerce_microservice.Config.Nested.{IsNested, validate_gateway_options-IsNested}
use go_commerce_microservice.Config.Accepted.{
  provided_stock_reserved_policy, provided_stock_not_reserved_policy, accepted_options-IsDeadLetter,
}
use go_commerce_microservice.Catalog.Write as Write
use go_commerce_microservice.Catalog.Write.{
  new_product, product_message, create_product_body, create_product_row, create_outbox_row,
  trim_space, trim_left, trim_right, keep, is_space,
}
use go_commerce_microservice.Catalog.Write.Created.{recorded}
use go_commerce_microservice.Catalog.Write.Server.{CreateProductRequest}
use go_commerce_microservice.Gateway.{CreateOrderRequest}
use go_commerce_microservice.Gateway.Clients.{Wire}
use go_commerce_microservice.Gateway.Handlers.{
  Response, ProductRules, product_request_valid, http_create_product,
}
use go_commerce_microservice.Gateway.Products.{created_yet_refused}
use go_commerce_microservice.Process.{
  Hook, hooks, Host, down, Env, on_start, start_outbox_worker, start_consumers, start_grpc_server,
  start_health_server, start_readiness, set_ready, readiness_status, Starting,
}
use go_commerce_microservice.Process.Ready.{IsServing, readiness-IsServing}
use go_commerce_microservice.Tests.Data.{uuids, floats, delivery, wire}

abbrev order_request : CreateOrderRequest
order_request = record {
  customer_id = "|||";
  order_items =
      (record { product_id = "|||||"; product_name = "pen"; unit_price = 3; quantity = pos 2 })
      ∷ [];
}

abbrev product_rules : ProductRules
product_rules = record { required = λ s. not (str_eq s ""); positive = λ x. ltb 0 x }

abbrev product_request : CreateProductRequest
product_request = record { name = "pen"; description = "blue"; price = 3 }

abbrev broken : Error
broken = Error.sentinel Sentinel.connection_lost

abbrev lossy : Write.Faults
lossy = record { create_product = fine; create_outbox = fine; commit = lost broken }

abbrev product_draws : Write.Draws
product_draws = record { product_id = 5; now = 1; event_id = 60; outbox_id = 61; outbox_time = 2 }

abbrev pen : Write.Product
pen = record {
  id = 5;
  name = "pen";
  description = "blue";
  price = 3;
  status = "ACTIVE";
  created_at = 1;
  updated_at = 1;
}

abbrev no_products : Write.ProductDb
no_products = record { products = []; outbox = [] }

request_passes : product_request_valid product_rules product_request ≡ true
unfolding product_request_valid
request_passes = refl

pen_made : new_product floats product_draws "pen" "blue" 3 ≡ ok pen
unfolding new_product trim_space trim_left trim_right keep is_space
pen_made = refl

pen_recorded :
    (create_product_body lossy pen (product_message uuids product_draws pen) no_products).0 ≡ ok tt
unfolding create_product_body create_product_row create_outbox_row statement insert_unique any
    product_message
pen_recorded = refl

created_yet_refused_example :
    http_create_product Wire.through uuids product_rules floats lossy product_draws
      (some product_request)
      no_products
    ≡ (Response.refused 400, recorded pen (product_message uuids product_draws pen) no_products)
created_yet_refused_example =
    created_yet_refused product_rules uuids floats lossy product_draws product_request no_products
      pen broken request_passes pen_made refl pen_recorded refl

abbrev gateway_options : GatewayOptions
gateway_options = record {
  app_port = "8080";
  management_port = "9090";
  catalog_read_grpc_addr = "read:1";
  catalog_write_grpc_addr = "write:1";
  order_grpc_url = "order:1";
  request_timeout = pos 5;
  grpc_read_timeout = pos 3;
  grpc_write_timeout = pos 4;
  read_header_timeout = pos 5;
  read_timeout = pos 10;
  write_timeout = pos 10;
  idle_timeout = pos 60;
}

gateway_accepted : validate_gateway_options gateway_options ≡ none
unfolding validate_gateway_options require_all positive_all timeouts_nested
gateway_accepted = refl

validate_gateway_options-IsNested_example : IsNested gateway_options
validate_gateway_options-IsNested_example =
    validate_gateway_options-IsNested gateway_options gateway_accepted

abbrev order_options : OrderRabbitmqOptions
order_options = record {
  url = "amqp://broker";
  publisher_exchange = "commerce";
  consumer_exchange = "commerce";
  stock_reserved_queue = "order.stock-reserved";
  stock_not_reserved_queue = "order.stock-not-reserved";
  outbox_interval_seconds = pos 5;
  connection_timeout = pos 5;
  publish_timeout = pos 5;
  outbox_processing_timeout = pos 30;
  consumer_processing_timeout = pos 30;
  consumer_retry_delay = pos 5;
  consumer_max_attempts = pos 5;
}

order_accepted : validate_order_rabbitmq_options order_options ≡ none
unfolding validate_order_rabbitmq_options require_all positive_all
order_accepted = refl

first_attempt : delivery_attempt delivery.headers ≡ pos 1
unfolding delivery_attempt
first_attempt = refl

accepted_options-IsDeadLetter_example :
    (n : ℕ) × (order_options.consumer_max_attempts ≡ pos (suc n))
    × ((last : Publishing) × (fate
            (suc n)
            (provided_stock_reserved_policy order_options)
            wire
            "down"
            delivery
          ≡ some (n, last))
        × IsDeadLetter (provided_stock_reserved_policy order_options) delivery last)
    × ((last : Publishing) × (fate
            (suc n)
            (provided_stock_not_reserved_policy order_options)
            wire
            "down"
            delivery
          ≡ some (n, last))
        × IsDeadLetter (provided_stock_not_reserved_policy order_options) delivery last)
accepted_options-IsDeadLetter_example =
    accepted_options-IsDeadLetter order_options wire "down" delivery order_accepted
      (omega arith, omega arith) first_attempt

abbrev clean_env : Env
clean_env = record {
  grpc_listen = none;
  health_listen = none;
  worker_wait = none;
  consumers_wait = none;
  health_shutdown = none;
}

abbrev serving : Host
serving =
    (on_start clean_env Hook.readiness
      (on_start clean_env Hook.health_server
        (on_start clean_env Hook.grpc_server
          (on_start clean_env Hook.consumers
            (on_start clean_env Hook.outbox_worker down).1).1).1).1).1

all_started :
    Starting clean_env []
      (Hook.readiness ∷ Hook.health_server ∷ Hook.grpc_server ∷ Hook.consumers ∷ Hook.outbox_worker
        ∷ [])
      serving
unfolding hooks on_start start_outbox_worker start_consumers start_grpc_server start_health_server
    start_readiness
all_started =
    Starting.next
      (Starting.next (Starting.next (Starting.next (Starting.next Starting.begin refl) refl) refl)
        refl)
      refl

says_up : readiness_status serving ≡ 200
unfolding readiness_status on_start start_readiness set_ready
says_up = refl

readiness-IsServing_example : IsServing serving
readiness-IsServing_example =
    readiness-IsServing clean_env []
      (Hook.readiness ∷ Hook.health_server ∷ Hook.grpc_server ∷ Hook.consumers ∷ Hook.outbox_worker
        ∷ [])
      serving (inl all_started) says_up
