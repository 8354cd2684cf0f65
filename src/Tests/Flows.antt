-- ===== src/Tests/Flows.antt =====
-- The theorems on the catalog's flow, the search and the queues at concrete data.
use go_commerce_microservice.Prelude.{ℕ, ◌≡◌, refl, true, false, List, [], ◌∷◌, All, map}
use go_commerce_microservice.Prelude.Int.{pos}
use go_commerce_microservice.Json.{Json, Items, Fields, Body, document}
use go_commerce_microservice.Sql.{ok, fine, statement}
use go_commerce_microservice.Sql.Rows.{any}
use go_commerce_microservice.Messaging.Delivery.{Delivery, acked, confirmed}
use go_commerce_microservice.Messaging.Publisher.{waiting}
use go_commerce_microservice.Messaging.Retry.{new_retry_policy, retry_message, dead_letter_message}
use go_commerce_microservice.Messaging.Topology.{issue_all, issue, declare}
use go_commerce_microservice.Messaging.Topology.Consumers.{subscribe_with_retry}
use go_commerce_microservice.Messaging.Topology.Returned.{Reaches, failed_delivery_returns}
use go_commerce_microservice.Saga.System.{Tick}
use go_commerce_microservice.Catalog.Write as Write
use go_commerce_microservice.Catalog.Write.{
  product_payload, is_empty, trim_space, trim_left, trim_right, keep, is_space,
}
use go_commerce_microservice.Catalog.Read as Read
use go_commerce_microservice.Catalog.Consumer.{unmarshal_product, product_event_of_fields}
use go_commerce_microservice.Catalog.Flow.{Catalog, Step, catalog_run}
use go_commerce_microservice.Catalog.Flow.Genuine.{IsFresh, IsShown, published_products-IsShown}
use go_commerce_microservice.Catalog.Search.{
  Exchange, Cluster, SearchReply, handle_index_product, index_product, request, put_document,
  document_id, document_of, marshal_document,
}
use go_commerce_microservice.Catalog.Search.Server.{listed, rpc_search_products}
use go_commerce_microservice.Catalog.Search.Consumer.{
  Turn, consume_search_index, with_search_event, after_index, settle_index,
}
use go_commerce_microservice.Catalog.Search.Found.{
  json_of, IsMember, AreHits, Shows, search_round_trip,
}
use go_commerce_microservice.Catalog.Search.Indexed.{IsIndexed, acked_only_if_IsIndexed}
use go_commerce_microservice.Tests.Data.{uuids, floats, delivery}

abbrev clean_tick : Tick
clean_tick = record {
  find_fault = fine;
  batch_size = 10;
  replies = λ n. confirmed true;
  marks = λ n. fine;
  bumps = λ n. fine;
  clock = λ n. 20;
}

abbrev fine_faults : Write.Faults
fine_faults = record { create_product = fine; create_outbox = fine; commit = fine }

abbrev draws : Write.Draws
draws = record { product_id = 5; now = 1; event_id = 60; outbox_id = 61; outbox_time = 2 }

abbrev empty_catalog : Catalog
empty_catalog = record {
  db = record { products = []; outbox = [] };
  link = record { returns = waiting []; stored = [] };
}

abbrev steps : List Step
steps = Step.create fine_faults draws "pen" "blue" 3 ∷ Step.publish clean_tick ∷ []

empty_catalog-IsFresh : IsFresh empty_catalog
empty_catalog-IsFresh = record { no_messages = refl; none_sent = refl }

published_products-IsShown_example :
    let t = catalog_run uuids floats "commerce" steps empty_catalog in
    All (IsShown uuids floats t.db.products) t.link.stored
published_products-IsShown_example =
    published_products-IsShown uuids floats "commerce" steps empty_catalog empty_catalog-IsFresh

abbrev pen : Read.Product
pen = record { id = "5"; name = "pen"; description = "blue"; price = 3; status = "ACTIVE" }

-- An answer with the members that Elasticsearch documents.
abbrev one_hit : Json
one_hit = Json.object (
    Fields.field "_index" (Json.text "products") (
      Fields.field "_id" (Json.text "5") (
        Fields.field "_score" (Json.real 7)
          (Fields.field "_source" (json_of (marshal_document (document_of pen))) Fields.end))))

abbrev all_hits : Json
all_hits = Json.object (
    Fields.field "total"
      (Json.object (
        Fields.field "value" (Json.integer (pos 1))
          (Fields.field "relation" (Json.text "eq") Fields.end)))
      (Fields.field "max_score" (Json.real 7)
        (Fields.field "hits" (Json.array (Items.cons one_hit Items.nil)) Fields.end)))

abbrev answer : Body
answer = document (
    Json.object (
      Fields.field "took" (Json.integer (pos 2)) (
        Fields.field "timed_out" (Json.boolean false) (
          Fields.field "_shards" (Json.object Fields.end)
            (Fields.field "hits" all_hits Fields.end)))))

answer-Shows : Shows (pen ∷ []) answer
unfolding marshal_document document_of
answer-Shows =
    Shows.response
      (IsMember.later refl (IsMember.later refl (IsMember.later refl (IsMember.here refl tt))))
      (IsMember.later refl (IsMember.later refl (IsMember.here refl tt)))
      (AreHits.more
        (IsMember.later refl (IsMember.later refl (IsMember.later refl (IsMember.here refl tt))))
        AreHits.none_left)

abbrev engine : Body → ℕ → SearchReply
engine query size = SearchReply.answered answer

words : is_empty (trim_space " pen ") ≡ false
unfolding trim_space trim_left trim_right keep is_space
words = refl

search_round_trip_example : rpc_search_products floats engine " pen " ≡ ok (map listed (pen ∷ []))
search_round_trip_example =
    search_round_trip floats engine " pen " (pen ∷ []) answer words answer-Shows refl

abbrev written_product : Write.Product
written_product = record {
  id = 5;
  name = "pen";
  description = "blue";
  price = 3;
  status = "ACTIVE";
  created_at = 1;
  updated_at = 1;
}

abbrev product_delivery : Delivery
product_delivery = record delivery { body = product_payload uuids 60 written_product }

abbrev turn : Turn
turn = record {
  finite = λ x. true;
  generated = "drawn";
  exchange = Exchange.accepted;
  channel_open = true;
}

abbrev empty_index : Cluster
empty_index = record { has_index = true; documents = [] }

indexed : (consume_search_index floats turn product_delivery empty_index).0 ≡ acked
unfolding consume_search_index with_search_event unmarshal_product product_event_of_fields
    product_payload after_index settle_index handle_index_product index_product request put_document
    document_id
indexed = refl

acked_only_if_IsIndexed_example :
    IsIndexed floats turn product_delivery empty_index
      (consume_search_index floats turn product_delivery empty_index).1
acked_only_if_IsIndexed_example =
    acked_only_if_IsIndexed floats turn product_delivery empty_index indexed

declared :
    (issue_all
      (λ n. fine)
      0
      (subscribe_with_retry "commerce" "order.stock-reserved" "stock.reserved"
        (new_retry_policy "commerce" "stock.reserved" "order.stock-reserved" (pos 3))
        (pos 5000))
      []).0
    ≡ ok tt
unfolding issue_all issue statement subscribe_with_retry declare any new_retry_policy
declared = refl

failed_delivery_returns_example :
    let p = new_retry_policy "commerce" "stock.reserved" "order.stock-reserved" (pos 3) in
    let out =
      issue_all
        (λ n. fine)
        0
        (subscribe_with_retry "commerce" "order.stock-reserved" "stock.reserved" p (pos 5000))
        [] in
    let again = retry_message p delivery "down" in
    let dead = dead_letter_message p "now" delivery "down" in
    Reaches out.1 again.exchange again.routing_key p.retry_queue
    × Reaches out.1 again.exchange again.routing_key "order.stock-reserved"
    × Reaches out.1 dead.exchange dead.routing_key p.dead_letter_queue
failed_delivery_returns_example =
    failed_delivery_returns (λ n. fine) "commerce" "order.stock-reserved" "stock.reserved" "now"
      "down" (pos 3) (pos 5000) delivery [] declared
