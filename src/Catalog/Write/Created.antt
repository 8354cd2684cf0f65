-- ===== src/Catalog/Write/Created.antt =====
-- What `CreateProduct` leaves behind.
use go_commerce_microservice.Prelude.{
  ◌≡◌, refl, String, false, [], ◌∷◌, ◌++◌, arith, ap, ◌∙◌, ◌⊎◌, true, Bool-cases, inl, inr,
}
use go_commerce_microservice.Error.{Error}
use go_commerce_microservice.External.{Float64, UuidText, FloatOps}
use go_commerce_microservice.Sql.{
  Result, ok, err, statement, Atomic, transaction-Atomic, then-ok, statement-ok, refused, lost,
}
use go_commerce_microservice.Sql.Rows.{insert_unique}
use go_commerce_microservice.Outbox.{OutboxMessage}
use go_commerce_microservice.Order.Schema.{violation}
use go_commerce_microservice.Catalog.Write.{
  Product, Draws, Faults, ProductDb, trim_space, is_empty, new_product, create_product_row,
  create_outbox_row, create_product_body, create_product_with_outbox, product_message, after_create,
  create_made, create_product,
}

-- The tables with a product and its message added.
abbrev pub recorded : Product → OutboxMessage → ProductDb → ProductDb
recorded product message s = record s {
  products = s.products ++ product ∷ [];
  outbox = s.outbox ++ message ∷ [];
}

create_product_row_lem :
    (row : Product) (s : ProductDb)
    → (create_product_row row s).0 ≡ ok tt
    → (create_product_row row s).1 ≡ record s { products = s.products ++ row ∷ [] }
unfolding create_product_row insert_unique violation
create_product_row_lem row s h = ground arith

create_outbox_row_lem :
    (row : OutboxMessage) (s : ProductDb)
    → (create_outbox_row row s).0 ≡ ok tt
    → (create_outbox_row row s).1 ≡ record s { outbox = s.outbox ++ row ∷ [] }
unfolding create_outbox_row insert_unique violation
create_outbox_row_lem row s h = ground arith

pub create_product_body_lem :
    (f : Faults) (product : Product) (message : OutboxMessage) (s : ProductDb)
    → (create_product_body f product message s).0 ≡ ok tt
    → (create_product_body f product message s).1 ≡ recorded product message s
unfolding create_product_body
create_product_body_lem f product message s h =
    let put_product = create_product_row product in
    let put_message = create_outbox_row message in
    let (ran, eq) =
      then-ok f.create_product put_product (statement f.create_outbox put_message) s h in
    let eq' = statement-ok f.create_outbox put_message (put_product s).1 tt (rw eq at h) in
    ap (λ t. t.1) (eq ∙ eq')
    ∙ create_outbox_row_lem message (put_product s).1 (rw eq' at (rw eq at h))
    ∙ ground (arith, create_product_row_lem product s ran)

-- A product of the request: its name is trimmed and not empty, and its price is not below zero.
pub record IsMade (fl : FloatOps) (name description : String) (price : Float64) (p : Product)
    : Type 0 where
  pub trimmed : p.name ≡ trim_space name
  pub named : is_empty p.name ≡ false
  pub described : p.description ≡ description
  pub priced : p.price ≡ price
  pub not_negative : fl.lt p.price 0 ≡ false

new_product-IsMade :
    (fl : FloatOps) (d : Draws) (name description : String) (price : Float64) (p : Product)
    → new_product fl d name description price ≡ ok p
    → IsMade fl name description price p
unfolding new_product
new_product-IsMade fl d name description price p h = ground arith

module _ (u : UuidText) (fl : FloatOps) (f : Faults) (d : Draws) (name description : String)
    (price : Float64) (s : ProductDb) where
  -- How `CreateProduct` may end: a product that `NewProduct` refuses, or whose price JSON cannot
  -- hold, changes nothing; else the product and its message are recorded and it is returned; or
  -- nothing is changed, and the error is an insert's or a refused commit's; or both are recorded,
  -- and the error is that of a commit whose reply is lost.
  pub data Outcome : Result Product × ProductDb → Type 0 where
    created :
        (p : Product)
        → IsMade fl name description price p
        → fl.finite p.price ≡ true
        → Outcome (ok p, recorded p (product_message u d p) s)
    rejected : {e : Error} → new_product fl d name description price ≡ err e → Outcome (err e, s)
    unwritten :
        (p : Product) {e : Error}
        → IsMade fl name description price p
        → fl.finite p.price ≡ false
        → Outcome (err e, s)
    unchanged :
        (p : Product) {e : Error}
        → IsMade fl name description price p
        → ((create_product_body f p (product_message u d p) s).0 ≡ err e) ⊎ (f.commit ≡ refused e)
        → Outcome (err e, s)
    in_doubt :
        (p : Product) {e : Error}
        → IsMade fl name description price p
        → fl.finite p.price ≡ true
        → f.commit ≡ lost e
        → Outcome (err e, recorded p (product_message u d p) s)

  after_create-Outcome :
      (p : Product) (out : Result (Unit {0}) × ProductDb)
      → IsMade fl name description price p
      → fl.finite p.price ≡ true
      → Atomic f.commit (create_product_body f p (product_message u d p)) s out
      → Outcome (after_create p out)
  unfolding after_create
  after_create-Outcome p out made fin (Atomic.committed {a = tt} h) =
      rw (create_product_body_lem f p (product_message u d p) s h) (Outcome.created p made fin)
  after_create-Outcome p out made fin (Atomic.undone why) = Outcome.unchanged p made why
  after_create-Outcome p out made fin (Atomic.in_doubt {a = tt} c h) =
      rw (create_product_body_lem f p (product_message u d p) s h) (Outcome.in_doubt p made fin c)

  create_made-Outcome :
      (made : Result Product)
      → new_product fl d name description price ≡ made
      → Outcome (create_made u fl f d made s)
  unfolding create_made create_product_with_outbox
  create_made-Outcome (err e) h = Outcome.rejected h
  create_made-Outcome (ok p) h =
      let message = product_message u d p in
      let made = new_product-IsMade fl d name description price p h in
      elim (Bool-cases (fl.finite p.price)) [
        | inl fin ↦ rw fin (
            after_create-Outcome p (create_product_with_outbox f p message s) made fin
              (transaction-Atomic f.commit (create_product_body f p message) s))
        | inr wild ↦ rw wild (Outcome.unwritten p made wild)
      ]

-- `CreateProduct` is atomic, whatever the database does: it returns a product of the request, with
-- a trimmed name that is not empty and a price that is finite and not below zero, whose row and
-- outbox message are both added; or it returns an error with nothing changed, only when
-- `NewProduct` refuses the request, JSON cannot hold the price, an insert fails or the commit is
-- refused; or, only when the commit's reply is lost, an error with both added.
pub create_product_atomic :
    (u : UuidText) (fl : FloatOps) (f : Faults) (d : Draws) (name description : String)
    (price : Float64) (s : ProductDb)
    → Outcome u fl f d name description price s (create_product u fl f d name description price s)
unfolding create_product
create_product_atomic u fl f d name description price s =
    create_made-Outcome u fl f d name description price s (new_product fl d name description price)
      refl
