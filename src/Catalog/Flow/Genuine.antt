-- ===== src/Catalog/Flow/Genuine.antt =====
-- What the read side's consumers make of the messages that the write side has published.
use go_commerce_microservice.Prelude.{
  ◌≡◌, refl, ap, ◌∙◌, String, List, [], ◌∷◌, ◌++◌, ◌⊎◌, inl, inr, All, arith, eq_iff,
}
use go_commerce_microservice.External.{Uuid, UuidText, FloatOps, Float64}
use go_commerce_microservice.Json.{Body}
use go_commerce_microservice.Sql.{Result, ok}
use go_commerce_microservice.Messaging.Delivery.{Table, Properties}
use go_commerce_microservice.Messaging.Publisher.{Sent, catalog_event_routing_key}
use go_commerce_microservice.Messaging.Worker.Rows.{All-map}
use go_commerce_microservice.Messaging.Worker.Stored.{rabbit_turn}
use go_commerce_microservice.Saga.Events.{Each, Each-process}
use go_commerce_microservice.Saga.Broker.{IsGenuine, AreGenuine, AreGenuine-map, process-AreGenuine}
use go_commerce_microservice.Saga.Says.{All-snoc}
use go_commerce_microservice.Saga.System.{publish_tick, delivery_of}
use go_commerce_microservice.Catalog.Write.{
  Faults, Product, ProductDb, Draws, product_payload, product_message,
}
use go_commerce_microservice.Catalog.Write.Created.{Outcome, recorded, create_product_atomic}
use go_commerce_microservice.Catalog.Read.{Store, handle_product_created}
use go_commerce_microservice.Catalog.Consumer as CatalogConsumer
use go_commerce_microservice.Catalog.Consumer.{
  unmarshal_product, after_command, consume_product_created,
}
use go_commerce_microservice.Catalog.Consumer.Decoded.{projection, decoded, product_round_trip}
use go_commerce_microservice.Catalog.Search.{Cluster, index_product, handle_index_product}
use go_commerce_microservice.Catalog.Search.Consumer as SearchConsumer
use go_commerce_microservice.Catalog.Search.Consumer.{
  after_index, with_search_event, product_of_event, consume_search_index,
}
use go_commerce_microservice.Catalog.Flow.{
  Catalog, Step, product_worker_process, catalog_step, catalog_run,
}

-- The table has this row.
abbrev pub IsRow : Product → List Product → Type 0
IsRow p [] = ⊥
IsRow p (q ∷ qs) = (q ≡ p) ⊎ IsRow p qs

IsRow-append : (p : Product) (ps qs : List Product) → IsRow p ps → IsRow p (ps ++ qs)
IsRow-append p [] qs nothing = elim nothing [ ]
IsRow-append p (q ∷ ps) qs (inl here) = inl here
IsRow-append p (q ∷ ps) qs (inr later) = inr (IsRow-append p ps qs later)

IsRow-last : (p : Product) (ps : List Product) → IsRow p (ps ++ p ∷ [])
IsRow-last p [] = inl refl
IsRow-last p (q ∷ ps) = inr (IsRow-last p ps)

-- An event that the write side has made of a row.
pub record IsCreation (u : UuidText) (rows : List Product) (id : Uuid) (event_type : String)
    (payload : Body) : Type 0 where
  pub product : Product
  pub event_id : Uuid
  pub row : IsRow product rows
  pub typed : event_type ≡ "ProductCreated"
  pub written : payload ≡ product_payload u event_id product

module _ (u : UuidText) (exchange : String) where
  -- Every row of the outbox and every message at the broker is of a product that is there.
  pub record IsHonest (s : Catalog) : Type 0 where
    pub rows : Each (IsCreation u s.db.products) s.db.outbox
    pub sent : AreGenuine catalog_event_routing_key exchange (IsCreation u s.db.products) s.link

  more_rows :
      (ps qs : List Product) (id : Uuid) (e : String) (b : Body)
      → IsCreation u ps id e b
      → IsCreation u (ps ++ qs) id e b
  more_rows ps qs id e b c = record {
    product = c.product;
    event_id = c.event_id;
    row = IsRow-append c.product ps qs c.row;
    typed = c.typed;
    written = c.written;
  }

  recorded-IsHonest :
      (d : Draws) (p : Product) (s : Catalog)
      → IsHonest s
      → IsHonest (record s { db = recorded p (product_message u d p) s.db })
  unfolding product_message
  recorded-IsHonest d p s h =
      let later = s.db.products ++ p ∷ [] in
      let m = product_message u d p in
      record {
        rows =
            All-snoc (λ n. IsCreation u later n.aggregate_id n.event_type n.payload) s.db.outbox m
              (All-map (λ n. IsCreation u s.db.products n.aggregate_id n.event_type n.payload)
                (λ n. IsCreation u later n.aggregate_id n.event_type n.payload)
                (λ n c. more_rows s.db.products (p ∷ []) n.aggregate_id n.event_type n.payload c)
                s.db.outbox h.rows)
              (record {
                product = p;
                event_id = d.event_id;
                row = IsRow-last p s.db.products;
                typed = refl;
                written = refl;
              });
        sent =
            AreGenuine-map catalog_event_routing_key exchange (IsCreation u s.db.products)
              (IsCreation u later) (more_rows s.db.products (p ∷ [])) s.link h.sent;
      }

  created-IsHonest :
      (fl : FloatOps) (f : Faults) (d : Draws) (name description : String) (price : Float64)
      (s : Catalog) (out : Result Product × ProductDb)
      → Outcome u fl f d name description price s.db out
      → IsHonest s
      → IsHonest (record s { db = out.1 })
  created-IsHonest fl f d name description price s out (Outcome.created p good fin) h =
      recorded-IsHonest d p s h
  created-IsHonest fl f d name description price s out (Outcome.rejected bad) h = h
  created-IsHonest fl f d name description price s out (Outcome.unwritten p good wild) h = h
  created-IsHonest fl f d name description price s out (Outcome.unchanged p good why) h = h
  created-IsHonest fl f d name description price s out (Outcome.in_doubt p good fin lossy) h =
      recorded-IsHonest d p s h

  step-IsHonest :
      (fl : FloatOps) (a : Step) (s : Catalog)
      → IsHonest s
      → IsHonest (catalog_step u fl exchange a s)
  unfolding catalog_step product_worker_process publish_tick
  step-IsHonest fl (Step.create f d name description price) s h =
      created-IsHonest fl f d name description price s _
        (create_product_atomic u fl f d name description price s.db) h
  step-IsHonest fl (Step.publish t) s h = record {
    rows =
        Each-process (IsCreation u s.db.products) t.find_fault t.batch_size
          (λ i.
            rabbit_turn catalog_event_routing_key exchange (t.replies i) (t.marks i) (t.bumps i)
              (t.clock i))
          (s.db.outbox, s.link) h.rows;
    sent =
        process-AreGenuine catalog_event_routing_key exchange (IsCreation u s.db.products) t.replies
          t.marks t.bumps t.clock t.find_fault t.batch_size (s.db.outbox, s.link) h.rows h.sent;
  }

  run-IsHonest :
      (fl : FloatOps) (steps : List Step) (s : Catalog)
      → IsHonest s
      → IsHonest (catalog_run u fl exchange steps s)
  unfolding catalog_run
  run-IsHonest fl [] s h = h
  run-IsHonest fl (a ∷ steps) s h =
      run-IsHonest fl steps (catalog_step u fl exchange a s) (step-IsHonest fl a s h)

-- What the read side does with a stored message, however often and with whatever headers it is delivered.
pub record IsShown (u : UuidText) (fl : FloatOps) (rows : List Product) (m : Sent) : Type 0 where
  pub product : Product
  pub event_id : Uuid
  pub row : IsRow product rows
  pub key : m.routing_key ≡ "product.created"
  pub projected :
      (t : CatalogConsumer.Turn) (headers : Table) (properties : Properties) (s : Store)
      → consume_product_created fl t (delivery_of m headers properties) s
        ≡ after_command t (
            handle_product_created t.faults t.now
              (record {
                message_id = u.print event_id;
                product = projection u product;
                payload = m.payload;
              })
              s)
  pub indexed :
      (t : SearchConsumer.Turn) (headers : Table) (properties : Properties) (c : Cluster)
      → consume_search_index fl t (delivery_of m headers properties) c
        ≡ after_index t (index_product t.finite t.generated t.exchange (projection u product) c)

created_key :
    (event_type key : String)
    → event_type ≡ "ProductCreated"
    → catalog_event_routing_key event_type ≡ ok key
    → key ≡ "product.created"
unfolding catalog_event_routing_key
created_key event_type key typed h = ground (arith, eq_iff event_type "ProductCreated")

read_indexed :
    (u : UuidText) (fl : FloatOps) (event_id : Uuid) (p : Product) (m : Sent)
    (t : SearchConsumer.Turn) (headers : Table) (properties : Properties) (c : Cluster)
    → m.payload ≡ product_payload u event_id p
    → consume_search_index fl t (delivery_of m headers properties) c
      ≡ after_index t (index_product t.finite t.generated t.exchange (projection u p) c)
unfolding consume_search_index with_search_event handle_index_product product_of_event
read_indexed u fl event_id p m t headers properties c h =
    rw (ap (unmarshal_product fl) h ∙ decoded u fl event_id p) refl

genuine-IsShown :
    (u : UuidText) (fl : FloatOps) (exchange : String) (rows : List Product) (m : Sent)
    → IsGenuine catalog_event_routing_key exchange (IsCreation u rows) m
    → IsShown u fl rows m
genuine-IsShown u fl exchange rows m g =
    let c = g.event in
    record {
      product = c.product;
      event_id = c.event_id;
      row = c.row;
      key = created_key g.event_type m.routing_key c.typed g.routed;
      projected = λ t headers properties s.
          product_round_trip u fl c.event_id c.product t (delivery_of m headers properties) s
            c.written;
      indexed = λ t headers properties i.
          read_indexed u fl c.event_id c.product m t headers properties i c.written;
    }

-- No message and no product yet.
pub record IsFresh (s : Catalog) : Type 0 where
  pub no_messages : s.db.outbox ≡ []
  pub none_sent : s.link.stored ≡ []

-- From an empty outbox and a broker without messages, whatever products are created and whatever
-- the worker publishes, with any faults of the database and of the broker: each message at the
-- broker is of a product whose row is in the products' table and carries the key product.created,
-- and every delivery of it, with any headers, makes the projection handle that product and the
-- search index that product, under its printed identifier.
pub published_products-IsShown :
    (u : UuidText) (fl : FloatOps) (exchange : String) (steps : List Step) (s : Catalog)
    → IsFresh s
    → let t = catalog_run u fl exchange steps s in All (IsShown u fl t.db.products) t.link.stored
published_products-IsShown u fl exchange steps s fresh =
    let t = catalog_run u fl exchange steps s in
    let start : IsHonest u exchange s = record {
      rows = rw fresh.no_messages tt;
      sent = rw fresh.none_sent tt;
    } in
    All-map (IsGenuine catalog_event_routing_key exchange (IsCreation u t.db.products))
      (IsShown u fl t.db.products) (genuine-IsShown u fl exchange t.db.products) t.link.stored
      (run-IsHonest u exchange fl steps s start).sent
