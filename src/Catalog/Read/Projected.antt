-- ===== src/Catalog/Read/Projected.antt =====
-- What the read side shows after an event.
use text.Mathlib.Text.{◌==◌ as str_eq}
use go_commerce_microservice.Prelude.{
  ◌≡◌, refl, false, Option, none, some, String, List, [], ◌∷◌, arith, if◌then◌else◌, eq_iff, ap,
  ◌∙◌,
}
use go_commerce_microservice.External.{Time}
use go_commerce_microservice.Sql.{
  ok, Fault, fine, refused, lost, Call, statement, ◌>>=◌, ◌>>◌, then-ok,
}
use go_commerce_microservice.Sql.Rows.{any}
use go_commerce_microservice.Catalog.Read.{
  Product, Store, Faults, Command, replace, upsert, find_all, get_products, set_products,
  delete_products, product_is_processed, product_save_processed, insert_message, project,
  unless_processed, handle_product_created, fill_cache, from_cache, handle_get_products,
  handle_get_products_beside, has_message_id,
}

abbrev pub product_of : String → List Product → Option Product
product_of id [] = none
product_of id (p ∷ ps) = if str_eq p.id id then some p else product_of id ps

product_of-replace :
    (id : String) (p : Product) (ps : List Product)
    → product_of id (replace p ps) ≡ (if str_eq p.id id then some p else product_of id ps)
unfolding replace
product_of-replace id p [] = refl
product_of-replace id p (q ∷ qs) =
    ground (arith, eq_iff p.id id, eq_iff q.id id, eq_iff q.id p.id, product_of-replace id p qs)

abbrev put : Product → Call Store (Unit {0})
put p s = (ok tt, record s { products = replace p s.products })

abbrev drop : Call Store (Unit {0})
drop s = (ok tt, record s { cache = none })

save_keeps :
    (fault : Fault) (now : Time) (c : Command) (s : Store)
    → ((product_save_processed fault now c.message_id c.payload s).1.products ≡ s.products)
      × ((product_save_processed fault now c.message_id c.payload s).1.cache ≡ s.cache)
unfolding product_save_processed insert_message statement
save_keeps fine now c s = (ground arith, ground arith)
save_keeps (refused e) now c s = (refl, refl)
save_keeps (lost e) now c s = (ground arith, ground arith)

-- A projection that returns no error has put the product and emptied the cache.
project-ok :
    (f : Faults) (now : Time) (c : Command) (s : Store)
    → (project f now c s).0 ≡ ok tt
    → ((project f now c s).1.products ≡ replace c.product s.products)
      × ((project f now c s).1.cache ≡ none)
unfolding project upsert delete_products
project-ok f now c s h =
    let save = product_save_processed f.save_processed now c.message_id c.payload in
    let (ran, eq) =
      then-ok f.upsert (put c.product) (statement f.delete_products drop >> save) s h in
    let s1 = (put c.product s).1 in
    let (ran', eq') = then-ok f.delete_products drop save s1 (rw eq at h) in
    let (same, none_) = save_keeps f.save_processed now c (drop s1).1 in
    let whole = ap (λ t. t.1) (eq ∙ eq') in
    (ap (λ t. t.products) whole ∙ same, ap (λ t. t.cache) whole ∙ none_)

looked_up :
    (fault : Fault) (f : Faults) (now : Time) (c : Command) (s : Store)
    → any (has_message_id c.message_id) s.inbox ≡ false
    → ((product_is_processed fault c.message_id >>= unless_processed f now c) s).0 ≡ ok tt
    → (product_is_processed fault c.message_id >>= unless_processed f now c) s ≡ project f now c s
unfolding product_is_processed statement unless_processed
looked_up fine f now c s new h = rw new refl
looked_up (refused e) f now c s new h = absurd (ground arith)
looked_up (lost e) f now c s new h = absurd (ground arith)

read_miss : (s : Store) → s.cache ≡ none → (handle_get_products fine fine fine s).0 ≡ ok s.products
unfolding handle_get_products get_products from_cache fill_cache find_all set_products statement
read_miss s h = rw h refl

read_hit :
    (s : Store) (ps : List Product)
    → s.cache ≡ some ps
    → (handle_get_products fine fine fine s).0 ≡ ok ps
unfolding handle_get_products get_products from_cache statement
read_hit s ps h = rw h refl

-- Once the event of a new message has been handled without an error, with whatever faults, the next
-- clean read of the products shows the event's product under its identifier and every other
-- product as it was projected before: no list that was cached before hides it.
pub shown_after_event :
    (f : Faults) (now : Time) (c : Command) (s : Store) (id : String)
    → any (has_message_id c.message_id) s.inbox ≡ false
    → (handle_product_created f now c s).0 ≡ ok tt
    → (ps : List Product) × ((handle_get_products fine fine fine
          (handle_product_created f now c s).1).0
        ≡ ok ps)
      × (product_of id ps
          ≡ (if str_eq c.product.id id then some c.product else product_of id s.products))
unfolding handle_product_created
shown_after_event f now c s id new h =
    let ran = looked_up f.is_processed f now c s new h in
    let t = (handle_product_created f now c s).1 in
    let (put_there, emptied) = project-ok f now c s (rw ran at h) in
    let whole = ap (λ out. out.1) ran in
    (
      t.products,
      read_miss t (ap (λ r. r.cache) whole ∙ emptied),
      ap (product_of id) (ap (λ r. r.products) whole ∙ put_there)
          ∙ product_of-replace id c.product s.products,
    )

-- A clean read that misses the cache answers with the list as it was, and puts this list into the
-- cache after what comes between.
read_beside :
    (others : Store → Store) (s : Store)
    → s.cache ≡ none
    → handle_get_products_beside others fine fine fine s
      ≡ (ok s.products, record (others s) { cache = some s.products })
unfolding handle_get_products_beside get_products from_cache fill_cache find_all set_products
    statement
read_beside others s h = rw h refl

-- A read that misses the cache, and between whose query and whose write of the cache an event of a
-- new message is handled without an error, puts its old list into the cache after the event has
-- emptied it: then the next read does not show the event's product, which was in no list before,
-- though it is projected. All statements of the two reads succeed.
pub overtaken_read_hides :
    (f : Faults) (now : Time) (c : Command) (s : Store)
    → s.cache ≡ none
    → any (has_message_id c.message_id) s.inbox ≡ false
    → (handle_product_created f now c s).0 ≡ ok tt
    → product_of c.product.id s.products ≡ none
    → let r =
        (handle_get_products_beside
          (λ t. (handle_product_created f now c t).1)
          fine
          fine
          fine
          s).1 in
      (product_of c.product.id r.products ≡ some c.product)
      × ((ps : List Product) × ((handle_get_products fine fine fine r).0 ≡ ok ps)
          × (product_of c.product.id ps ≡ none))
unfolding handle_product_created
overtaken_read_hides f now c s miss new h absent =
    let ran = looked_up f.is_processed f now c s new h in
    let (put_there, emptied) = project-ok f now c s (rw ran at h) in
    let overtaken = read_beside (λ t. (handle_product_created f now c t).1) s miss in
    let r =
      (handle_get_products_beside (λ t. (handle_product_created f now c t).1) fine fine fine s).1 in
    (
      ap (λ out. product_of c.product.id out.1.products) overtaken
          ∙ ap (product_of c.product.id) (ap (λ out. out.1.products) ran ∙ put_there)
          ∙ product_of-replace c.product.id c.product s.products
          ∙ ground (arith, eq_iff c.product.id c.product.id),
      (s.products, read_hit r s.products (ap (λ out. out.1.cache) overtaken), absent),
    )
