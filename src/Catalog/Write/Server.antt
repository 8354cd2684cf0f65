-- ===== src/Catalog/Write/Server.antt =====
-- services/catalog-write-service/internal/adapter/grpc/catalog_server.go.
use go_commerce_microservice.Prelude.{String}
use go_commerce_microservice.External.{Float64, UuidText, FloatOps}
use go_commerce_microservice.Sql.{Result, ok, err}
use go_commerce_microservice.Order.Server.{Code, Text, Answer}
use go_commerce_microservice.Catalog.Write.{Product, ProductDb, Faults, Draws, create_product}

pub record CreateProductRequest : Type 0 where
  pub name : String
  pub description : String
  pub price : Float64

-- `catalogv1.Product`, as far as it is filled.
pub record ProtoProduct : Type 0 where
  pub id : String
  pub name : String
  pub description : String
  pub price : Float64

unfoldable pub to_proto_product : UuidText → Product → ProtoProduct
to_proto_product u p = record {
  id = u.print p.id;
  name = p.name;
  description = p.description;
  price = p.price;
}

-- Every error is an invalid argument.
unfoldable pub product_answer :
    UuidText → Result Product × ProductDb → Answer ProtoProduct × ProductDb
unfolding to_proto_product
product_answer u (ok p, s) = (Answer.reply (to_proto_product u p), s)
product_answer u (err e, s) =
    (Answer.failure (record { code = Code.invalid_argument; text = Text.of_error e }), s)

unfoldable pub rpc_create_product :
    UuidText
    → FloatOps
    → Faults
    → Draws
    → CreateProductRequest
    → ProductDb
    → Answer ProtoProduct × ProductDb
unfolding product_answer
rpc_create_product u fl f d req s =
    product_answer u (create_product u fl f d req.name req.description req.price s)
