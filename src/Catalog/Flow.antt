-- ===== src/Catalog/Flow.antt =====
-- The catalog's two services and the broker between them: products are created, and the worker of
-- services/catalog-write-service/internal/worker/outbox_worker.go publishes their events.
pub mod Genuine
use go_commerce_microservice.Prelude.{◌≡◌, String, List, [], ◌∷◌, ◌⊎◌}
use go_commerce_microservice.External.{Uuid, UuidText, FloatOps, Float64}
use go_commerce_microservice.Json.{Body}
use go_commerce_microservice.Outbox.{Outbox}
use go_commerce_microservice.Messaging.Publisher.{Link, catalog_event_routing_key}
use go_commerce_microservice.Saga.System.{Tick, publish_tick}
use go_commerce_microservice.Catalog.Write.{Product, ProductDb, Faults, Draws, create_product}

pub record Catalog : Type 0 where
  pub db : ProductDb
  pub link : Link

-- A call of `CreateProduct`, or a tick of the worker.
pub data Step : Type 0 where
  create : Faults → Draws → String → String → Float64 → Step
  publish : Tick → Step

-- The worker's `process` with the service's publisher.
unfoldable pub product_worker_process : String → Tick → Outbox × Link → Outbox × Link
product_worker_process = publish_tick catalog_event_routing_key

module _ (u : UuidText) (fl : FloatOps) (exchange : String) where
  unfoldable pub catalog_step : Step → Catalog → Catalog
  unfolding product_worker_process
  catalog_step (Step.create f d name description price) s = record s {
    db = (create_product u fl f d name description price s.db).1;
  }
  catalog_step (Step.publish t) s =
      let (outbox, l) = product_worker_process exchange t (s.db.outbox, s.link) in
      record s { db = record s.db { outbox = outbox }; link = l }

  unfoldable pub catalog_run : List Step → Catalog → Catalog
  unfolding catalog_step
  catalog_run [] s = s
  catalog_run (a ∷ rest) s = catalog_run rest (catalog_step a s)
