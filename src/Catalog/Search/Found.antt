-- ===== src/Catalog/Search/Found.antt =====
-- What a search shows of the products that were indexed.
use go_commerce_microservice.Prelude.{
  ℕ, ◌≡◌, refl, ap, true, false, Option, some, String, List, [], ◌∷◌, map, ◌∙◌,
}
use go_commerce_microservice.External.{FloatOps}
use go_commerce_microservice.Json.{
  Json, Items, Fields, Body, document, equal_fold, Slice, empty_slice, elements_onto,
  memory_for-empty,
}
use go_commerce_microservice.Sql.{ok}
use go_commerce_microservice.Catalog.Read.{Product}
use go_commerce_microservice.Catalog.Write.{trim_space, is_empty}
use go_commerce_microservice.Catalog.Search.{
  SearchReply, ProductSearchDocument, no_document, document_of, marshal_document,
  document_of_fields, source_field, hit_of, hits_of, inner_hits, outer_hits, decode_response,
  search_query, search_result, products_of, search, handle_search_products,
}
use go_commerce_microservice.Catalog.Search.Server.{listed, rpc_search_products}

-- The JSON of a body that parses.
abbrev pub json_of : Body → Json
json_of (document v) = v
json_of _ = Json.null

-- No member answers to the name.
abbrev pub Lacks : String → Fields → Type 0
Lacks name Fields.end = Unit
Lacks name (Fields.field k v rest) = (equal_fold name k ≡ false) × Lacks name rest

-- The object has one member of the name, among any others, with this value.
pub data IsMember (name : String) (v : Json) : Fields → Type 0 where
  here :
      {k : String} {rest : Fields}
      → equal_fold name k ≡ true
      → Lacks name rest
      → IsMember name v (Fields.field k v rest)
  later :
      {k : String} {w : Json} {rest : Fields}
      → equal_fold name k ≡ false
      → IsMember name v rest
      → IsMember name v (Fields.field k w rest)

-- Hits whose `_source` members are the products' documents, as the indexing writes them.
pub data AreHits : List Product → Items → Type 0 where
  none_left : AreHits [] Items.nil
  more :
      {p : Product} {ps : List Product} {fs : Fields} {rest : Items}
      → IsMember "_source" (json_of (marshal_document (document_of p))) fs
      → AreHits ps rest
      → AreHits (p ∷ ps) (Items.cons (Json.object fs) rest)

-- A search response of Elasticsearch with these products: an object whose member `hits` is an
-- object whose member `hits` is the array of the hits; what else there is in them is left open.
pub data Shows (ps : List Product) : Body → Type 0 where
  response :
      {fs inner : Fields} {vs : Items}
      → IsMember "hits" (Json.object inner) fs
      → IsMember "hits" (Json.array vs) inner
      → AreHits ps vs
      → Shows ps (document (Json.object fs))

-- A decoder of one member passes over the others.
source_passes :
    (fl : FloatOps) (k : String) (w : Json) (rest : Fields) (acc : Option ProductSearchDocument)
    → equal_fold "_source" k ≡ false
    → source_field fl (Fields.field k w rest) acc ≡ source_field fl rest acc
unfolding source_field
source_passes fl k (Json.object gs) rest acc h = rw h refl
source_passes fl k Json.null rest acc h = refl
source_passes fl k _ rest acc h = rw h refl

source_field-Lacks :
    (fl : FloatOps) (fs : Fields) (acc : Option ProductSearchDocument)
    → Lacks "_source" fs
    → source_field fl fs acc ≡ acc
unfolding source_field
source_field-Lacks fl Fields.end acc h = refl
source_field-Lacks fl (Fields.field k w rest) acc (h, l) =
    source_passes fl k w rest acc h ∙ source_field-Lacks fl rest acc l

source_read :
    (fl : FloatOps) (p : Product) {fs : Fields}
    → IsMember "_source" (json_of (marshal_document (document_of p))) fs
    → source_field fl fs (some no_document) ≡ some (document_of p)
unfolding source_field document_of_fields marshal_document document_of
source_read fl p (IsMember.here {k = k} {rest = rest} h l) =
    rw h (source_field-Lacks fl rest (some (document_of p)) l)
source_read fl p (IsMember.later {k = k} {w = w} {rest = rest} h m) =
    source_passes fl k w rest (some no_document) h ∙ source_read fl p m

abbrev found : List Product → Slice ProductSearchDocument
found ps = record { visible = map document_of ps; spare = [] }

hits_read :
    (fl : FloatOps) {ps : List Product} {vs : Items}
    → AreHits ps vs
    → hits_of fl vs [] ≡ some (found ps)
unfolding hits_of hit_of elements_onto
hits_read fl AreHits.none_left = refl
hits_read fl (AreHits.more {p = p} m rest) = rw (source_read fl p m, hits_read fl rest) refl

products_back : (ps : List Product) → products_of (map document_of ps) ≡ ps
unfolding document_of
products_back [] = refl
products_back (p ∷ ps) = ap (λ rest. p ∷ rest) (products_back ps)

inner_passes :
    (fl : FloatOps) (k : String) (w : Json) (rest : Fields)
    (acc : Option (Slice ProductSearchDocument))
    → equal_fold "hits" k ≡ false
    → inner_hits fl (Fields.field k w rest) acc ≡ inner_hits fl rest acc
unfolding inner_hits
inner_passes fl k (Json.array vs) rest acc h = rw h refl
inner_passes fl k Json.null rest acc h = rw h refl
inner_passes fl k _ rest acc h = rw h refl

inner_hits-Lacks :
    (fl : FloatOps) (fs : Fields) (acc : Option (Slice ProductSearchDocument))
    → Lacks "hits" fs
    → inner_hits fl fs acc ≡ acc
unfolding inner_hits
inner_hits-Lacks fl Fields.end acc h = refl
inner_hits-Lacks fl (Fields.field k w rest) acc (h, l) =
    inner_passes fl k w rest acc h ∙ inner_hits-Lacks fl rest acc l

inner_read :
    (fl : FloatOps) {ps : List Product} {vs : Items} {fs : Fields}
    → AreHits ps vs
    → IsMember "hits" (Json.array vs) fs
    → inner_hits fl fs (some empty_slice) ≡ some (found ps)
unfolding inner_hits
inner_read fl {ps} {vs} are (IsMember.here {k = k} {rest = rest} h l) =
    rw (h, memory_for-empty vs, hits_read fl are) (inner_hits-Lacks fl rest (some (found ps)) l)
inner_read fl {ps} are (IsMember.later {k = k} {w = w} {rest = rest} h m) =
    inner_passes fl k w rest (some empty_slice) h ∙ inner_read fl are m

outer_passes :
    (fl : FloatOps) (k : String) (w : Json) (rest : Fields)
    (acc : Option (Slice ProductSearchDocument))
    → equal_fold "hits" k ≡ false
    → outer_hits fl (Fields.field k w rest) acc ≡ outer_hits fl rest acc
unfolding outer_hits
outer_passes fl k (Json.object gs) rest acc h = rw h refl
outer_passes fl k Json.null rest acc h = refl
outer_passes fl k _ rest acc h = rw h refl

outer_hits-Lacks :
    (fl : FloatOps) (fs : Fields) (acc : Option (Slice ProductSearchDocument))
    → Lacks "hits" fs
    → outer_hits fl fs acc ≡ acc
unfolding outer_hits
outer_hits-Lacks fl Fields.end acc h = refl
outer_hits-Lacks fl (Fields.field k w rest) acc (h, l) =
    outer_passes fl k w rest acc h ∙ outer_hits-Lacks fl rest acc l

outer_read :
    (fl : FloatOps) {ps : List Product} {vs : Items} {inner fs : Fields}
    → AreHits ps vs
    → IsMember "hits" (Json.array vs) inner
    → IsMember "hits" (Json.object inner) fs
    → outer_hits fl fs (some empty_slice) ≡ some (found ps)
unfolding outer_hits
outer_read fl {ps} are i (IsMember.here {k = k} {rest = rest} h l) =
    rw (h, inner_read fl are i) (outer_hits-Lacks fl rest (some (found ps)) l)
outer_read fl are i (IsMember.later {k = k} {w = w} {rest = rest} h m) =
    outer_passes fl k w rest (some empty_slice) h ∙ outer_read fl are i m

response_read :
    (fl : FloatOps) {ps : List Product} {body : Body}
    → Shows ps body
    → decode_response fl body ≡ some (map document_of ps)
unfolding decode_response
response_read fl (Shows.response o i are) = rw (outer_read fl are i o) refl

-- A search whose words are not blank shows exactly the products, in order, whose documents, as the
-- indexing has written them, the engine answers with for the trimmed words and the limit of 50,
-- whatever else the answer, its hits and their frame hold; the status is left out.
pub search_round_trip :
    (fl : FloatOps) (engine : Body → ℕ → SearchReply) (query : String) (ps : List Product)
    (body : Body)
    → is_empty (trim_space query) ≡ false
    → Shows ps body
    → engine (search_query (trim_space query)) 50 ≡ SearchReply.answered body
    → rpc_search_products fl engine query ≡ ok (map listed ps)
unfolding rpc_search_products handle_search_products search search_result
search_round_trip fl engine query ps body words shows answer =
    rw
      (
        rpc_search_products,
        handle_search_products,
        words,
        search,
        answer,
        search_result,
        response_read fl shows,
        products_back ps,
      )
      refl
