-- ===== src/Catalog/Write.antt =====
-- services/catalog-write-service/internal: domain/product.go, service/product_service.go,
-- adapter/repository/product_repository_pg.go and adapter/grpc/catalog_server.go.
-- The column of the price is kept as the value that was given, and a `float64` is written to JSON
-- as `real`, which is read back as it was.
pub mod Created
pub mod Server
use Prim.Native.Char.{Char, code}
use Prim.Native.String.{String}
use go_commerce_microservice.Prelude.{
  ℕ, Bool, true, false, ◌&&◌, ◌||◌, Option, none, some, List, [], ◌∷◌, leb, ◌==◌, if◌then◌else◌,
}
use go_commerce_microservice.Error.{Error}
use go_commerce_microservice.External.{Uuid, Time, Float64, UuidText, FloatOps}
use go_commerce_microservice.Json.{Json, Fields, Body, document, text, real, object}
use go_commerce_microservice.Sql.{Result, ok, err, Fault, Call, statement, transaction, ◌>>◌}
use go_commerce_microservice.Sql.Rows.{insert_unique}
use go_commerce_microservice.Outbox.{OutboxMessage}
use go_commerce_microservice.Order.Schema.{violation}

pub record Product : Type 0 where
  pub id : Uuid
  pub name : String
  pub description : String
  pub price : Float64
  pub status : String
  pub created_at : Time
  pub updated_at : Time

-- `unicode.IsSpace`
unfoldable pub is_space : ℕ → Bool
is_space c =
    (leb 9 c && leb c 13)
    || c == 32
    || c == 133
    || c == 160
    || c == 5760
    || (leb 8192 c && leb c 8202)
    || c == 8232
    || c == 8233
    || c == 8239
    || c == 8287
    || c == 12288

unfoldable pub trim_left : String → String
trim_left String.[] = String.[]
trim_left (String.◌∷◌ c s) =
    let rest = trim_left s in if is_space (code c) then rest else String.◌∷◌ c s

-- A trailing space goes when nothing is left behind it.
unfoldable pub keep : Char → String → String
keep c String.[] = if is_space (code c) then String.[] else String.◌∷◌ c String.[]
keep c (String.◌∷◌ d s) = String.◌∷◌ c (String.◌∷◌ d s)

unfoldable pub trim_right : String → String
unfolding keep
trim_right String.[] = String.[]
trim_right (String.◌∷◌ c s) = keep c (trim_right s)

-- `strings.TrimSpace`
unfoldable pub trim_space : String → String
trim_space s = trim_right (trim_left s)

abbrev pub is_empty : String → Bool
is_empty String.[] = true
is_empty (String.◌∷◌ c s) = false

-- What one call draws from outside.
pub record Draws : Type 0 where
  pub product_id : Uuid
  pub now : Time
  pub event_id : Uuid
  pub outbox_id : Uuid
  pub outbox_time : Time

abbrev pub made : Draws → String → String → Float64 → Product
made d name description price = record {
  id = d.product_id;
  name = name;
  description = description;
  price = price;
  status = "ACTIVE";
  created_at = d.now;
  updated_at = d.now;
}

unfoldable pub new_product : FloatOps → Draws → String → String → Float64 → Result Product
new_product fl d name description price =
    if is_empty (trim_space name)
    then err (Error.message "Product name is required")
    else if fl.lt price 0
    then err (Error.message "Product price is required")
    else ok (made d (trim_space name) description price)

pub record ProductDb : Type 0 where
  pub products : List Product
  pub outbox : List OutboxMessage

pub record Faults : Type 0 where
  pub create_product : Fault
  pub create_outbox : Fault
  pub commit : Fault

-- A value that a column refuses is a `refused` statement.
unfoldable pub create_product_row : Product → Call ProductDb (Unit {0})
create_product_row row s = elim (insert_unique (λ a b. a.id == b.id) row s.products) [
  | none ↦ (violation, s)
  | some rows ↦ (ok tt, record s { products = rows })
]

unfoldable pub create_outbox_row : OutboxMessage → Call ProductDb (Unit {0})
create_outbox_row row s = elim (insert_unique (λ a b. a.id == b.id) row s.outbox) [
  | none ↦ (violation, s)
  | some rows ↦ (ok tt, record s { outbox = rows })
]

unfoldable pub create_product_body : Faults → Product → OutboxMessage → Call ProductDb (Unit {0})
create_product_body f product message =
    statement f.create_product (create_product_row product)
    >> statement f.create_outbox (create_outbox_row message)

unfoldable pub create_product_with_outbox :
    Faults → Product → OutboxMessage → Call ProductDb (Unit {0})
create_product_with_outbox f product message =
    transaction f.commit (create_product_body f product message)

-- `json.Marshal` writes a map's keys in order.
unfoldable pub product_payload : UuidText → Uuid → Product → Body
product_payload u event_id product = document (
    object (
      Fields.field "description" (text product.description) (
        Fields.field "message_id" (text (u.print event_id)) (
          Fields.field "name" (text product.name) (
            Fields.field "price" (real product.price) (
              Fields.field "product_id" (text (u.print product.id))
                (Fields.field "status" (text product.status) Fields.end)))))))

unfoldable pub product_message : UuidText → Draws → Product → OutboxMessage
unfolding product_payload
product_message u d product = record {
  id = d.outbox_id;
  aggregate_id = product.id;
  aggregate_type = "Product";
  event_type = "ProductCreated";
  payload = product_payload u d.event_id product;
  retry_count = 0;
  created_at = d.outbox_time;
  processed_at = none;
}

unfoldable pub after_create : Product → Result (Unit {0}) × ProductDb → Result Product × ProductDb
after_create product (ok u, s) = (ok product, s)
after_create product (err e, s) = (err e, s)

-- `json.Marshal` refuses a price that is no finite number.
unfoldable pub create_made :
    UuidText → FloatOps → Faults → Draws → Result Product → Call ProductDb Product
unfolding after_create
create_made u fl f d (err e) s = (err e, s)
create_made u fl f d (ok product) s =
    if fl.finite product.price
    then after_create product (create_product_with_outbox f product (product_message u d product) s)
    else (err (Error.message "json: unsupported value"), s)

unfoldable pub create_product :
    UuidText → FloatOps → Faults → Draws → String → String → Float64 → Call ProductDb Product
unfolding create_made
create_product u fl f d name description price =
    create_made u fl f d (new_product fl d name description price)
