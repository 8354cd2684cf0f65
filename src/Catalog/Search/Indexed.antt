-- ===== src/Catalog/Search/Indexed.antt =====
-- What the index holds after a delivery of ProductCreated.
use text.Mathlib.Text.{◌==◌ as str_eq}
use go_commerce_microservice.Prelude.{
  ◌≡◌, ◌≢◌, refl, ap, ◌∙◌, Bool, true, false, Option, none, some, String, List, [], ◌∷◌, arith,
  eq_iff, if◌then◌else◌, Option-cases, Bool-cases, inl, inr, sym, ◌⊎◌,
}
use mathlib.Core.Path.{subst}
use go_commerce_microservice.Error.{Error}
use go_commerce_microservice.External.{Float64, FloatOps}
use go_commerce_microservice.Json.{Body}
use go_commerce_microservice.Sql.{Result, ok, err}
use go_commerce_microservice.Messaging.Delivery.{Delivery, acked}
use go_commerce_microservice.Catalog.Read.{Product}
use go_commerce_microservice.Catalog.Write.{is_empty}
use go_commerce_microservice.Catalog.Consumer.{ProductCreatedEvent, unmarshal_product}
use go_commerce_microservice.Catalog.Search.{
  Exchange, Cluster, elasticsearch_response_error, document_of, marshal_document, put_document,
  request, index_product, handle_index_product, document_id,
}
use go_commerce_microservice.Catalog.Search.Consumer.{
  Turn, settle_index, product_of_event, after_index, with_search_event, consume_search_index,
}

-- The document under an identifier.
abbrev pub document_at : String → List (String × Body) → Option Body
document_at id [] = none
document_at id ((k, b) ∷ rest) = if str_eq k id then some b else document_at id rest

abbrev pub body_of : Product → Body
body_of p = marshal_document (document_of p)

document_at-put :
    (id other : String) (b : Body) (ds : List (String × Body))
    → document_at other (put_document id b ds)
      ≡ (if str_eq id other then some b else document_at other ds)
unfolding put_document
document_at-put id other b [] = refl
document_at-put id other b ((k, c) ∷ ds) =
    ground (arith, eq_iff k id, eq_iff k other, eq_iff id other, document_at-put id other b ds)

put_same :
    (id : String) (b : Body) (ds : List (String × Body))
    → document_at id ds ≡ some b
    → put_document id b ds ≡ ds
unfolding put_document
put_same id b [] h = absurd (ground arith)
put_same id b ((k, c) ∷ ds) h = ground (arith, eq_iff k id, put_same id b ds)

abbrev with_document : String → Product → Cluster → Cluster
with_document key p c = record c { documents = put_document key (body_of p) c.documents }

-- A request fails with or without its effect, or succeeds with it.
request-cases :
    (operation : String) (x : Exchange) (effect : Cluster → Cluster) (c : Cluster)
    → ((e : Error) × (request operation x effect c ≡ (err e, c)))
      ⊎ ((e : Error) × (request operation x effect c ≡ (err e, effect c)))
      ⊎ (request operation x effect c ≡ (ok tt, effect c))
unfolding request
request-cases operation (Exchange.unreachable e) effect c = inl (Error.wrapped operation e, refl)
request-cases operation (Exchange.lost e) effect c = inr (inl (Error.wrapped operation e, refl))
request-cases operation (Exchange.rejected status body) effect c =
    inl (elasticsearch_response_error operation status body, refl)
request-cases operation Exchange.accepted effect c = inr (inr refl)

index_product-cases :
    (finite : Float64 → Bool) (generated : String) (x : Exchange) (p : Product) (c : Cluster)
    → let key = document_id generated p in
      ((e : Error) × (index_product finite generated x p c ≡ (err e, c)))
      ⊎ ((e : Error) × (index_product finite generated x p c ≡ (err e, with_document key p c)))
      ⊎ (index_product finite generated x p c ≡ (ok tt, with_document key p c))
unfolding index_product
index_product-cases finite generated x p c = elim (Bool-cases (finite p.price)) [
  | inl held ↦ rw held (
      request-cases "index product search document" x (with_document (document_id generated p) p) c)
  | inr not_finite ↦ inl (
    Error.wrapped "marshal product search document" (Error.message "json: unsupported value"),
    rw not_finite refl,
  )
]

named_id :
    (generated : String) (p : Product) → is_empty p.id ≡ false → document_id generated p ≡ p.id
unfolding document_id
named_id generated p h = ground arith

-- A repeated request for a document that is there, under its product's identifier, changes nothing.
index_again :
    (finite : Float64 → Bool) (generated : String) (x : Exchange) (p : Product) (c : Cluster)
    → is_empty p.id ≡ false
    → document_at p.id c.documents ≡ some (body_of p)
    → (index_product finite generated x p c).1 ≡ c
index_again finite generated x p c named h =
    let same : with_document (document_id generated p) p c ≡ c =
      ap (λ key. with_document key p c) (named_id generated p named)
      ∙ ap (λ ds. record c { documents = ds }) (put_same p.id (body_of p) c.documents h) in
    elim (index_product-cases finite generated x p c) [
      | inl (e, kept) ↦ ap (λ out. out.1) kept
      | inr (inl (e, in_doubt)) ↦ ap (λ out. out.1) in_doubt ∙ same
      | inr (inr done) ↦ ap (λ out. out.1) done ∙ same
    ]

after_index-cluster : (t : Turn) (out : Result (Unit {0}) × Cluster) → (after_index t out).1 ≡ out.1
unfolding after_index
after_index-cluster t (ok u, c) = refl
after_index-cluster t (err e, c) = refl

after_index-acked : (t : Turn) (e : Error) (c : Cluster) → (after_index t (err e, c)).0 ≢ acked
unfolding after_index settle_index
after_index-acked t e c h = elim (Bool-cases t.channel_open) [
  | inl works ↦ absurd (ground arith)
  | inr broken ↦ absurd (ground arith)
]

-- The event's product is in the index, under its identifier or, without one, the identifier that
-- Elasticsearch drew, and nothing else has changed.
pub record IsIndexed (fl : FloatOps) (t : Turn) (d : Delivery) (c c' : Cluster) : Type 0 where
  pub event : ProductCreatedEvent
  pub decoded : unmarshal_product fl d.body ≡ some event
  pub key : String
  pub keyed : key ≡ (if is_empty event.product_id then t.generated else event.product_id)
  pub stored : document_at key c'.documents ≡ some (body_of (product_of_event event))
  pub others : (id : String) → key ≢ id → document_at id c'.documents ≡ document_at id c.documents
  pub again :
      (next : Turn) (e : Delivery)
      → e.body ≡ d.body
      → (is_empty event.product_id ≡ true) ⊎ ((consume_search_index fl next e c').1 ≡ c')

never_acked : (t : Turn) (c : Cluster) → (with_search_event t none c).0 ≢ acked
unfolding with_search_event settle_index
never_acked t c h = elim (Bool-cases t.channel_open) [
  | inl works ↦ absurd (ground arith)
  | inr broken ↦ absurd (ground arith)
]

repeated :
    (fl : FloatOps) (t : Turn) (body : Body) (c : Cluster) (event : ProductCreatedEvent)
    (e : Delivery)
    → unmarshal_product fl body ≡ some event
    → is_empty event.product_id ≡ false
    → document_at event.product_id c.documents ≡ some (body_of (product_of_event event))
    → e.body ≡ body
    → (consume_search_index fl t e c).1 ≡ c
unfolding consume_search_index with_search_event handle_index_product product_of_event
repeated fl t body c event e decoded named there same =
    rw (ap (unmarshal_product fl) same ∙ decoded) (
      after_index-cluster t
        (index_product t.finite t.generated t.exchange (product_of_event event) c)
      ∙ index_again t.finite t.generated t.exchange (product_of_event event) c named there)

indexed :
    (fl : FloatOps) (t : Turn) (d : Delivery) (c : Cluster) (event : ProductCreatedEvent)
    → unmarshal_product fl d.body ≡ some event
    → (with_search_event t (some event) c).0 ≡ acked
    → IsIndexed fl t d c (with_search_event t (some event) c).1
unfolding with_search_event handle_index_product product_of_event document_id
indexed fl t d c event decoded h =
    let p = product_of_event event in
    let key = document_id t.generated p in
    elim (index_product-cases t.finite t.generated t.exchange p c) [
      | inl (e, kept) ↦ absurd (after_index-acked t e c (rw kept at h))
      | inr (inl (e, in_doubt)) ↦
          absurd (after_index-acked t e (with_document key p c) (rw in_doubt at h))
      | inr (inr done) ↦
          let after =
            after_index-cluster t (index_product t.finite t.generated t.exchange p c)
            ∙ ap (λ out. out.1) done in
          let there : document_at key (with_document key p c).documents ≡ some (body_of p) =
            document_at-put key key (body_of p) c.documents ∙ ground (arith, eq_iff key key) in
          subst (IsIndexed fl t d c) (sym after) (record {
            event = event;
            decoded = decoded;
            key = key;
            keyed = refl;
            stored = there;
            others = λ id apart.
                document_at-put key id (body_of p) c.documents ∙ ground (arith, eq_iff key id);
            again = λ next e same. elim (Bool-cases (is_empty event.product_id)) [
              | inl drawn ↦ inl drawn
              | inr named ↦
                  let at_id =
                    ap (λ k. document_at k (with_document key p c).documents)
                      (sym (named_id t.generated p named))
                    ∙ there in
                  inr (
                    repeated fl next d.body (with_document key p c) event e decoded named at_id
                      same)
            ];
          })
    ]

-- A delivery that is acknowledged carries an event whose product the index then holds, under the
-- product's identifier or, if that is empty, under the one that Elasticsearch drew; every other
-- document is as before. Unless the identifier is empty, a delivery of the same body that comes
-- next leaves the index as it is, whatever happens to it.
pub acked_only_if_IsIndexed :
    (fl : FloatOps) (t : Turn) (d : Delivery) (c : Cluster)
    → (consume_search_index fl t d c).0 ≡ acked
    → IsIndexed fl t d c (consume_search_index fl t d c).1
unfolding consume_search_index with_search_event handle_index_product
acked_only_if_IsIndexed fl t d c h = elim (Option-cases (unmarshal_product fl d.body)) [
  | inl garbled ↦ absurd (never_acked t c (rw garbled at h))
  | inr (event, decoded) ↦ rw decoded (indexed fl t d c event decoded (rw decoded at h))
]
