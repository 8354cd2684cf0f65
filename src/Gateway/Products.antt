-- ===== src/Gateway/Products.antt =====
-- A product that is created through the gateway.
use go_commerce_microservice.Prelude.{◌≡◌, refl, ap, ◌∙◌, true, some}
use go_commerce_microservice.Error.{Error}
use go_commerce_microservice.External.{UuidText, FloatOps}
use go_commerce_microservice.Sql.{Result, ok, err, lost, transaction, transaction_lost}
use go_commerce_microservice.Catalog.Write.{
  Product, ProductDb, Faults, Draws, new_product, product_message, create_product_body,
  create_product_with_outbox, create_made, after_create, create_product,
}
use go_commerce_microservice.Catalog.Write.Created.{recorded, create_product_body_lem}
use go_commerce_microservice.Catalog.Write.Server.{
  CreateProductRequest, rpc_create_product, product_answer,
}
use go_commerce_microservice.Gateway.{write_service_error}
use go_commerce_microservice.Gateway.Clients.{Wire, call, client_create_products}
use go_commerce_microservice.Gateway.Handlers.{
  ProductRules, Response, respond, product_request_valid, http_create_product,
}

module _ (u : UuidText) (fl : FloatOps) (f : Faults) (d : Draws) (req : CreateProductRequest)
    (s : ProductDb) (p : Product) where
  abbrev pub body_run : Result (Unit {0}) × ProductDb
  body_run = create_product_body f p (product_message u d p) s

  created_in_doubt :
      (e : Error)
      → new_product fl d req.name req.description req.price ≡ ok p
      → fl.finite p.price ≡ true
      → body_run.0 ≡ ok tt
      → f.commit ≡ lost e
      → create_product u fl f d req.name req.description req.price s ≡ (err e, body_run.1)
  unfolding create_product create_made after_create create_product_with_outbox
  created_in_doubt e made fin ran commit =
      let body = create_product_body f p (product_message u d p) in
      rw (made, fin)
        (ap (after_create p)
          (ap (λ c. transaction c body s) commit ∙ transaction_lost e body s tt ran))

-- A request for a product that passes the gateway's and the service's checks, whose price JSON can
-- hold and whose inserts succeed, is answered with 400 when only the reply to the database's commit is lost, although the
-- product's row and its outbox message are then both in the tables.
pub created_yet_refused :
    (v : ProductRules) (u : UuidText) (fl : FloatOps) (f : Faults) (d : Draws)
    (req : CreateProductRequest) (s : ProductDb) (p : Product) (e : Error)
    → product_request_valid v req ≡ true
    → new_product fl d req.name req.description req.price ≡ ok p
    → fl.finite p.price ≡ true
    → (create_product_body f p (product_message u d p) s).0 ≡ ok tt
    → f.commit ≡ lost e
    → http_create_product Wire.through u v fl f d (some req) s
      ≡ (Response.refused 400, recorded p (product_message u d p) s)
unfolding http_create_product client_create_products call rpc_create_product product_answer respond
    write_service_error
created_yet_refused v u fl f d req s p e valid made fin ran commit =
    rw
      (
        valid,
        created_in_doubt u fl f d req s p e made fin ran commit,
        create_product_body_lem f p (product_message u d p) s ran,
      )
      refl
