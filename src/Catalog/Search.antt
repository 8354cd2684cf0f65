-- ===== src/Catalog/Search.antt =====
-- services/catalog-read-service/internal: adapter/repository/product_search_repository_elasticsearch.go,
-- features/products/indexing_product/handler.go and features/products/searching_products/handler.go.
-- What Elasticsearch answers is chosen by the environment.
pub mod Server
pub mod Consumer
pub mod Indexed
pub mod Found
use Prim.Native.String.{String, ◌++◌ as concat}
use text.Mathlib.Text.{◌==◌ as str_eq}
use go_commerce_microservice.Prelude.{
  ℕ, Bool, true, false, Option, none, some, List, [], ◌∷◌, ◌>>=◌, ◌==◌, if◌then◌else◌,
}
use go_commerce_microservice.Prelude.Int.{ℤ, pos}
use go_commerce_microservice.Error.{Error}
use go_commerce_microservice.External.{Float64, FloatOps}
use go_commerce_microservice.Json.{
  Json, Items, Fields, Body, malformed, document, equal_fold, text_field, real_field, Slice,
  empty_slice, memory_for, elements_onto,
}
use go_commerce_microservice.Sql.{Result, ok, err, Call}
use go_commerce_microservice.Catalog.Read.{Product}
use go_commerce_microservice.Catalog.Write.{trim_space, is_empty}

pub record ProductSearchDocument : Type 0 where
  pub id : String
  pub name : String
  pub description : String
  pub price : Float64
  pub status : String

-- The index: whether it is there, and its documents by their identifiers.
pub record Cluster : Type 0 where
  pub has_index : Bool
  pub documents : List (String × Body)

-- What becomes of a request that writes: it never arrives; it is done and its answer lost; it is
-- answered with an error status, and the body as far as it could be read; or it is done.
pub data Exchange : Type 0 where
  unreachable lost : Error → Exchange
  rejected : String → Option String → Exchange
  accepted : Exchange

-- `elasticsearchResponseError`; the payload is the first 8 KiB of the body.
unfoldable pub elasticsearch_response_error : String → String → Option String → Error
elasticsearch_response_error operation status none =
    Error.message (concat operation (concat ": " status))
elasticsearch_response_error operation status (some payload) =
    Error.message (concat operation (concat ": " (concat status (concat ": " payload))))

-- A request for one effect on the index.
unfoldable pub request : String → Exchange → (Cluster → Cluster) → Call Cluster (Unit {0})
unfolding elasticsearch_response_error
request operation (Exchange.unreachable e) effect c = (err (Error.wrapped operation e), c)
request operation (Exchange.lost e) effect c = (err (Error.wrapped operation e), effect c)
request operation (Exchange.rejected status body) effect c =
    (err (elasticsearch_response_error operation status body), c)
request operation Exchange.accepted effect c = (ok tt, effect c)

unfoldable pub document_of : Product → ProductSearchDocument
document_of p = record {
  id = p.id;
  name = p.name;
  description = p.description;
  price = p.price;
  status = p.status;
}

unfoldable pub marshal_document : ProductSearchDocument → Body
marshal_document d = document (
    Json.object (
      Fields.field "id" (Json.text d.id) (
        Fields.field "name" (Json.text d.name) (
          Fields.field "description" (Json.text d.description) (
            Fields.field "price" (Json.real d.price)
              (Fields.field "status" (Json.text d.status) Fields.end))))))

-- A document under an identifier replaces the one that was there.
unfoldable pub put_document : String → Body → List (String × Body) → List (String × Body)
put_document id body [] = (id, body) ∷ []
put_document id body ((k, b) ∷ rest) =
    let later = (k, b) ∷ put_document id body rest in
    if str_eq k id then (id, body) ∷ rest else later

-- `WithDocumentID`: without an identifier the request is a `POST`, for which Elasticsearch draws one.
unfoldable pub document_id : String → Product → String
document_id generated p = if is_empty p.id then generated else p.id

-- `Index`; the flag is whether JSON can hold the price, which is no NaN and not infinite, and the
-- text is the identifier that Elasticsearch draws if it has to.
unfoldable pub index_product :
    (Float64 → Bool) → String → Exchange → Product → Call Cluster (Unit {0})
unfolding request document_of marshal_document document_id
index_product finite generated x p =
    if finite p.price
    then request "index product search document" x (λ (c : Cluster). record c {
      documents =
          put_document (document_id generated p) (marshal_document (document_of p)) c.documents;
    })
    else (λ c. (
      err (
          Error.wrapped "marshal product search document"
            (Error.message "json: unsupported value")),
      c,
    ))

-- `Handle` of indexing_product.
unfoldable pub handle_index_product :
    (Float64 → Bool) → String → Exchange → Product → Call Cluster (Unit {0})
handle_index_product = index_product

unfoldable pub search_query : String → Body
search_query words = document (
    Json.object (
      Fields.field "query"
        (Json.object (
          Fields.field "multi_match"
            (Json.object (
              Fields.field "fields"
                (Json.array (
                  Items.cons (Json.text "name^2") (Items.cons (Json.text "description") Items.nil)))
                (Fields.field "query" (Json.text words) Fields.end)))
            Fields.end))
        Fields.end))

-- A document is decoded onto an earlier one: a member that is missing leaves the field as it was.
unfoldable pub document_of_fields :
    FloatOps → ProductSearchDocument → Fields → Option ProductSearchDocument
document_of_fields fl earlier fs = do
  id ← text_field "id" fs (some earlier.id)
  name ← text_field "name" fs (some earlier.name)
  description ← text_field "description" fs (some earlier.description)
  price ← real_field fl "price" fs (some earlier.price)
  status ← text_field "status" fs (some earlier.status)
  some (record { id = id; name = name; description = description; price = price; status = status })

abbrev pub no_document : ProductSearchDocument
no_document = record { id = ""; name = ""; description = ""; price = 0; status = "" }

-- The member `_source` of a hit; several are decoded onto one another.
unfoldable pub source_field :
    FloatOps → Fields → Option ProductSearchDocument → Option ProductSearchDocument
unfolding document_of_fields
source_field fl Fields.end acc = acc
source_field fl (Fields.field k (Json.object fs) rest) acc =
    source_field fl rest (
      if equal_fold "_source" k then (acc >>= λ earlier. document_of_fields fl earlier fs) else acc)
source_field fl (Fields.field k Json.null rest) acc = source_field fl rest acc
source_field fl (Fields.field k _ rest) acc =
    source_field fl rest (if equal_fold "_source" k then none else acc)

unfoldable pub hit_of : FloatOps → ProductSearchDocument → Json → Option ProductSearchDocument
unfolding source_field
hit_of fl earlier (Json.object fs) = source_field fl fs (some earlier)
hit_of fl earlier Json.null = some earlier
hit_of fl earlier _ = none

unfoldable pub hits_of :
    FloatOps → Items → List ProductSearchDocument → Option (Slice ProductSearchDocument)
unfolding hit_of elements_onto
hits_of fl vs memory = elements_onto (hit_of fl) no_document vs memory

-- The array `hits` of the object `hits`; of several the last one is kept, each of its elements
-- decoded onto an earlier one.
unfoldable pub inner_hits :
    FloatOps → Fields → Option (Slice ProductSearchDocument) → Option (Slice ProductSearchDocument)
unfolding hits_of memory_for
inner_hits fl Fields.end acc = acc
inner_hits fl (Fields.field k (Json.array vs) rest) acc = inner_hits fl rest (
    if equal_fold "hits" k then (acc >>= λ earlier. hits_of fl vs (memory_for vs earlier)) else acc)
inner_hits fl (Fields.field k Json.null rest) acc =
    inner_hits fl rest (if equal_fold "hits" k then (acc >>= λ earlier. some empty_slice) else acc)
inner_hits fl (Fields.field k _ rest) acc =
    inner_hits fl rest (if equal_fold "hits" k then none else acc)

unfoldable pub outer_hits :
    FloatOps → Fields → Option (Slice ProductSearchDocument) → Option (Slice ProductSearchDocument)
unfolding inner_hits
outer_hits fl Fields.end acc = acc
outer_hits fl (Fields.field k (Json.object fs) rest) acc =
    outer_hits fl rest (if equal_fold "hits" k then inner_hits fl fs acc else acc)
outer_hits fl (Fields.field k Json.null rest) acc = outer_hits fl rest acc
outer_hits fl (Fields.field k _ rest) acc =
    outer_hits fl rest (if equal_fold "hits" k then none else acc)

unfoldable pub decode_response : FloatOps → Body → Option (List ProductSearchDocument)
unfolding outer_hits
decode_response fl malformed = none
decode_response fl (document (Json.object fs)) = do
  hits ← outer_hits fl fs (some empty_slice)
  some hits.visible
decode_response fl (document Json.null) = some []
decode_response fl (document _) = none

abbrev pub product_of : ProductSearchDocument → Product
product_of d = record {
  id = d.id;
  name = d.name;
  description = d.description;
  price = d.price;
  status = d.status;
}

abbrev pub products_of : List ProductSearchDocument → List Product
products_of [] = []
products_of (d ∷ ds) = product_of d ∷ products_of ds

-- The answer to a search.
pub data SearchReply : Type 0 where
  unreachable : Error → SearchReply
  rejected : String → Option String → SearchReply
  answered : Body → SearchReply

unfoldable pub search_result : Option (List ProductSearchDocument) → Result (List Product)
search_result none =
    err (Error.wrapped "decode product search response" (Error.message "invalid response"))
search_result (some documents) = ok (products_of documents)

-- `Search`; the engine is asked for at most 50 documents.
unfoldable pub search : FloatOps → (Body → ℕ → SearchReply) → String → Result (List Product)
unfolding search_result search_query elasticsearch_response_error
search fl engine words = elim (engine (search_query words) 50) [
  | unreachable e ↦ err (Error.wrapped "search product documents" e)
  | rejected status body ↦ err (elasticsearch_response_error "search product documents" status body)
  | answered body ↦ search_result (decode_response fl body)
]

-- `Handle` of searching_products.
unfoldable pub handle_search_products :
    FloatOps → (Body → ℕ → SearchReply) → String → Result (List Product)
handle_search_products fl engine query =
    if is_empty (trim_space query)
    then err (Error.message "search text is required")
    else search fl engine (trim_space query)

-- The answer to the question whether the index exists.
pub data ExistsReply : Type 0 where
  unreachable not_closed : Error → ExistsReply
  status : ℕ → String → ExistsReply

-- `ensureIndex`
unfoldable pub ensure_index : ExistsReply → Exchange → Call Cluster (Unit {0})
ensure_index (ExistsReply.unreachable e) x c =
    (err (Error.wrapped "check product search index" e), c)
ensure_index (ExistsReply.not_closed e) x c =
    (err (Error.wrapped "close product search index response" e), c)
ensure_index (ExistsReply.status code words) x c =
    if code == 200
    then (ok tt, c)
    else if code == 404
    then request "create product search index" x (λ (d : Cluster). record d { has_index = true }) c
    else (err (Error.message (concat "check product search index: " words)), c)
