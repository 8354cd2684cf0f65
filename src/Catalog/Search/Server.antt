-- ===== src/Catalog/Search/Server.antt =====
-- services/catalog-read-service/internal/adapter/grpc/catalog_server.go.
use go_commerce_microservice.Prelude.{ℕ, String, List, map}
use go_commerce_microservice.External.{Float64, FloatOps}
use go_commerce_microservice.Json.{Body}
use go_commerce_microservice.Sql.{Result, ok, err, Fault, Call, pure, ◌>>=◌}
use go_commerce_microservice.Catalog.Read.{Product, Store, handle_get_products}
use go_commerce_microservice.Catalog.Search.{SearchReply, handle_search_products}

-- `catalogv1.Product`, as far as it is filled.
pub record ListedProduct : Type 0 where
  pub id : String
  pub name : String
  pub description : String
  pub price : Float64

unfoldable pub listed : Product → ListedProduct
listed p = record { id = p.id; name = p.name; description = p.description; price = p.price }

-- `GetProducts`
unfoldable pub rpc_get_products : Fault → Fault → Fault → Call Store (List ListedProduct)
unfolding listed
rpc_get_products get_fault find_fault set_fault = do
  products ← handle_get_products get_fault find_fault set_fault
  pure (map listed products)

-- `SearchProducts`
unfoldable pub rpc_search_products :
    FloatOps → (Body → ℕ → SearchReply) → String → Result (List ListedProduct)
unfolding listed
rpc_search_products fl engine query = elim (handle_search_products fl engine query) [
  | ok products ↦ ok (map listed products)
  | err e ↦ err e
]
