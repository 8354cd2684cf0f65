-- ===== src/Catalog/Read.antt =====
-- services/catalog-read-service/internal: features/products/handling_product_created/handler.go,
-- features/products/getting_products/handler.go and adapter/repository (product_repository_mongo.go,
-- inbox_message_repository_mongo.go, product_cache_repository_redis.go).
-- The expiry of the cached list is one more `delete_products`, at any time.
pub mod Projected
use text.Mathlib.Text.{◌==◌ as str_eq}
use go_commerce_microservice.Prelude.{
  Bool, true, false, Option, none, some, String, List, [], ◌∷◌, if◌then◌else◌,
}
use go_commerce_microservice.Error.{Error, Sentinel}
use go_commerce_microservice.External.{Float64, Time}
use go_commerce_microservice.Json.{Body}
use go_commerce_microservice.Sql.{Result, ok, err, Fault, Call, pure, statement, ◌>>=◌, ◌>>◌}
use go_commerce_microservice.Sql.Rows.{any, insert_unique}

pub record Product : Type 0 where
  pub id : String
  pub name : String
  pub description : String
  pub price : Float64
  pub status : String

pub record InboxMessageModel : Type 0 where
  pub message_id : String
  pub event_type : String
  pub payload : Body
  pub processed_at : Time

-- The collections, in insertion order, and the cached list under its one key.
pub record Store : Type 0 where
  pub products : List Product
  pub cache : Option (List Product)
  pub inbox : List InboxMessageModel

-- `ReplaceOne({_id: id}, model, upsert)`
unfoldable pub replace : Product → List Product → List Product
replace p [] = p ∷ []
replace p (q ∷ qs) = let rest = q ∷ replace p qs in if str_eq q.id p.id then p ∷ qs else rest

unfoldable pub upsert : Fault → Product → Call Store (Unit {0})
unfolding replace
upsert fault p = statement fault λ s. (ok tt, record s { products = replace p s.products })

unfoldable pub find_all : Fault → Call Store (List Product)
find_all fault = statement fault λ s. (ok s.products, s)

unfoldable pub get_products : Fault → Call Store (Option (List Product))
get_products fault = statement fault λ s. (ok s.cache, s)

unfoldable pub set_products : Fault → List Product → Call Store (Unit {0})
set_products fault products = statement fault λ s. (ok tt, record s { cache = some products })

unfoldable pub delete_products : Fault → Call Store (Unit {0})
delete_products fault = statement fault λ s. (ok tt, record s { cache = none })

abbrev pub has_message_id : String → InboxMessageModel → Bool
has_message_id message_id m = str_eq m.message_id message_id

unfoldable pub product_is_processed : Fault → String → Call Store Bool
product_is_processed fault message_id =
    statement fault λ s. (ok (any (has_message_id message_id) s.inbox), s)

-- The index on `message_id` is unique.
unfoldable pub insert_message : InboxMessageModel → Call Store (Unit {0})
insert_message m s = elim (insert_unique (λ a b. str_eq b.message_id a.message_id) m s.inbox) [
  | none ↦ (err (Error.sentinel Sentinel.unique_violation), s)
  | some rows ↦ (ok tt, record s { inbox = rows })
]

unfoldable pub product_save_processed : Fault → Time → String → Body → Call Store (Unit {0})
unfolding insert_message
product_save_processed fault now message_id payload = statement fault (
    insert_message (record {
      message_id = message_id;
      event_type = "ProductCreated";
      payload = payload;
      processed_at = now;
    }))

pub record Faults : Type 0 where
  pub is_processed : Fault
  pub upsert : Fault
  pub delete_products : Fault
  pub save_processed : Fault

pub record Command : Type 0 where
  pub message_id : String
  pub product : Product
  pub payload : Body

unfoldable pub project : Faults → Time → Command → Call Store (Unit {0})
project f now c = do
  upsert f.upsert c.product
  delete_products f.delete_products
  product_save_processed f.save_processed now c.message_id c.payload

unfoldable pub unless_processed : Faults → Time → Command → Bool → Call Store (Unit {0})
unless_processed f now c true = pure tt
unless_processed f now c false = project f now c

-- `Handle` of handling_product_created.
unfoldable pub handle_product_created : Faults → Time → Command → Call Store (Unit {0})
unfolding unless_processed
handle_product_created f now c = do
  done ← product_is_processed f.is_processed c.message_id
  unless_processed f now c done

-- What other calls do to the store between two statements of a call.
unfoldable pub meanwhile : (Store → Store) → Call Store (Unit {0})
meanwhile others s = (ok tt, others s)

-- The cache-aside read: on a miss the list is read and put into the cache. `others` comes between.
unfoldable pub fill_cache : (Store → Store) → Fault → Fault → Call Store (List Product)
unfolding meanwhile
fill_cache others find_fault set_fault = do
  products ← find_all find_fault
  meanwhile others
  set_products set_fault products
  pure products

unfoldable pub from_cache :
    (Store → Store) → Fault → Fault → Option (List Product) → Call Store (List Product)
from_cache others find_fault set_fault none = fill_cache others find_fault set_fault
from_cache others find_fault set_fault (some cached) = pure cached

-- `Handle` of getting_products, while other calls run between its two last statements.
unfoldable pub handle_get_products_beside :
    (Store → Store) → Fault → Fault → Fault → Call Store (List Product)
unfolding from_cache
handle_get_products_beside others get_fault find_fault set_fault = do
  cached ← get_products get_fault
  from_cache others find_fault set_fault cached

-- `Handle` of getting_products, alone.
unfoldable pub handle_get_products : Fault → Fault → Fault → Call Store (List Product)
unfolding handle_get_products_beside
handle_get_products = handle_get_products_beside (λ s. s)
