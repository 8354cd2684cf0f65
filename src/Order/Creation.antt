-- ===== src/Order/Creation.antt =====
-- `CreateOrder`: what it has recorded when it returns, on every path.
use go_commerce_microservice.Prelude.{
  ◌≡◌, refl, Bool, Bool-cases, none, false, some, List, [], ◌∷◌, ◌++◌, map, arith, ◌==◌,
  Option-cases, inl, inr, ap, ◌∙◌, ◌⊎◌,
}
use go_commerce_microservice.Error.{Error}
use go_commerce_microservice.External.{Uuid, UuidText, FloatOps}
use go_commerce_microservice.Sql.{
  Result, ok, err, statement, Atomic, transaction-Atomic, pure, refused, lost, ◌>>◌, then-ok,
  statement-ok,
}
use go_commerce_microservice.Sql.Rows.{insert_unique, any}
use go_commerce_microservice.Outbox.{OutboxMessage}
use go_commerce_microservice.Order.Domain.{Order}
use go_commerce_microservice.Order.Input.{Rules, CreateOrderInput, validate}
use go_commerce_microservice.Order.Schema.{
  Columns, OrderDataModel, OrderItemDataModel, OrderDb, to_order_data_model,
  to_order_item_data_model, insert_items, create_order_row, create_item_rows, create_outbox_row,
}
use go_commerce_microservice.Order.Repository.{Faults, create_body, create_with_outbox}
use go_commerce_microservice.Order.Status.{status_of}
use go_commerce_microservice.Order.Service.{Draws, outbox_message, ordered, create_order}

-- The tables with an order, its items and one outbox message added at their ends.
abbrev pub recorded : Order → OutboxMessage → OrderDb → OrderDb
recorded order message s = record s {
  orders = s.orders ++ to_order_data_model order ∷ [];
  order_items = s.order_items ++ map to_order_item_data_model order.items;
  outbox = s.outbox ++ message ∷ [];
}

pub insert_unique-append :
    {A : Type 0} (clash : A → A → Bool) (row : A) (rows out : List A)
    → insert_unique clash row rows ≡ some out
    → out ≡ rows ++ row ∷ []
unfolding insert_unique
insert_unique-append clash row rows out h = ground arith

append-cons : {A : Type 0} (xs : List A) (y : A) (ys : List A) → (xs ++ y ∷ []) ++ ys ≡ xs ++ y ∷ ys
append-cons [] y ys = refl
append-cons (x ∷ xs) y ys = ap (λ t. x ∷ t) (append-cons xs y ys)

append-nil : {A : Type 0} (xs : List A) → xs ≡ xs ++ []
append-nil [] = refl
append-nil (x ∷ xs) = ap (λ t. x ∷ t) (append-nil xs)

insert_items-append :
    (rows table out : List OrderItemDataModel)
    → insert_items rows table ≡ some out
    → out ≡ table ++ rows
unfolding insert_items
insert_items-append [] table out h = ground (arith, append-nil table)
insert_items-append (row ∷ rows) table out h =
    elim (Option-cases (insert_unique (λ a b. a.id == b.id) row table)) [
      | inl e ↦ ground arith
      | inr (table', e) ↦ ground (
        arith,
        insert_unique-append (λ a b. a.id == b.id) row table table' e,
        insert_items-append rows table' out,
        append-cons table row rows,
      )
    ]

create_order_row_lem :
    (k : Columns) (row : OrderDataModel) (s : OrderDb)
    → (create_order_row k row s).0 ≡ ok tt
    → (create_order_row k row s).1 ≡ record s { orders = s.orders ++ row ∷ [] }
unfolding create_order_row insert_unique
create_order_row_lem k row s h = ground arith

create_item_rows_lem :
    (k : Columns) (rows : List OrderItemDataModel) (s : OrderDb)
    → (create_item_rows k rows s).0 ≡ ok tt
    → (create_item_rows k rows s).1 ≡ record s { order_items = s.order_items ++ rows }
unfolding create_item_rows
create_item_rows_lem k [] s h = cc
create_item_rows_lem k (row ∷ rows) s h =
    elim (Option-cases (insert_items (row ∷ rows) s.order_items)) [
      | inl e ↦ ground arith
      | inr (table, e) ↦ ground (arith, insert_items-append (row ∷ rows) s.order_items table e)
    ]

create_outbox_row_lem :
    (row : OutboxMessage) (s : OrderDb)
    → (create_outbox_row row s).0 ≡ ok tt
    → (create_outbox_row row s).1 ≡ record s { outbox = s.outbox ++ row ∷ [] }
unfolding create_outbox_row insert_unique
create_outbox_row_lem row s h = ground arith

-- The three inserts, run in turn: a success of each has added its rows.
pub create_body_lem :
    (f : Faults) (order : Order) (message : OutboxMessage) (s : OrderDb)
    → (create_body f order message s).0 ≡ ok tt
    → (create_body f order message s).1 ≡ recorded order message s
unfolding create_body
create_body_lem f order message s h =
    let rows = map to_order_item_data_model order.items in
    let put_order = create_order_row f.columns (to_order_data_model order) in
    let put_items = create_item_rows f.columns rows in
    let put_message = create_outbox_row message in
    let (ran1, eq1) =
      then-ok f.create_order put_order
        (statement f.create_items put_items >> statement f.create_outbox put_message) s h in
    let s1 = (put_order s).1 in
    let (ran2, eq2) =
      then-ok f.create_items put_items (statement f.create_outbox put_message) s1 (rw eq1 at h) in
    let s2 = (put_items s1).1 in
    let eq3 = statement-ok f.create_outbox put_message s2 tt (rw eq2 at (rw eq1 at h)) in
    ap (λ t. t.1) (eq1 ∙ eq2 ∙ eq3)
    ∙ create_outbox_row_lem message s2 (rw eq3 at (rw eq2 at (rw eq1 at h)))
    ∙ ground (
      arith,
      create_item_rows_lem f.columns rows s1 ran2,
      create_order_row_lem f.columns (to_order_data_model order) s ran1,
    )

-- No order had the row's identifier.
absent :
    (id : Uuid) (rows : List OrderDataModel)
    → any (λ b. id == b.id) rows ≡ false
    → status_of id rows ≡ none
unfolding any status_of
absent id [] h = refl
absent id (row ∷ rows) h = ground (arith, absent id rows)

create_order_row-absent :
    (k : Columns) (row : OrderDataModel) (s : OrderDb)
    → (create_order_row k row s).0 ≡ ok tt
    → status_of row.id s.orders ≡ none
unfolding create_order_row insert_unique
create_order_row-absent k row s h = elim (Bool-cases (any (λ b. row.id == b.id) s.orders)) [
  | inl taken ↦ absurd (ground arith)
  | inr free ↦ absent row.id s.orders free
]

create_body-absent :
    (f : Faults) (order : Order) (message : OutboxMessage) (s : OrderDb)
    → (create_body f order message s).0 ≡ ok tt
    → status_of order.id s.orders ≡ none
unfolding create_body to_order_data_model
create_body-absent f order message s h =
    let rows = map to_order_item_data_model order.items in
    let put_order = create_order_row f.columns (to_order_data_model order) in
    let (ran, eq) =
      then-ok f.create_order put_order
        (statement f.create_items (create_item_rows f.columns rows)
          >> statement f.create_outbox (create_outbox_row message))
        s h in
    create_order_row-absent f.columns (to_order_data_model order) s ran

module _ (r : Rules) (u : UuidText) (fl : FloatOps) (f : Faults) (d : Draws)
    (input : CreateOrderInput) (s : OrderDb) where
  abbrev placed : Order
  placed = ordered fl d input

  abbrev message : OutboxMessage
  message = outbox_message u d placed

  -- How `CreateOrder` may end: an input that fails the checks is rejected with their error and
  -- nothing changed; else everything is recorded, for an identifier that no order had, and the
  -- order returned; or nothing is changed, and the error is an insert's or a refused commit's; or
  -- everything is recorded, and the error is that of a commit whose reply is lost.
  pub data Outcome : Result Order × OrderDb → Type 0 where
    rejected : {e : Error} → validate r input ≡ some e → Outcome (err e, s)
    created :
        validate r input ≡ none
        → status_of placed.id s.orders ≡ none
        → Outcome (ok placed, recorded placed message s)
    unchanged :
        {e : Error}
        → validate r input ≡ none
        → ((create_body f placed message s).0 ≡ err e) ⊎ (f.commit ≡ refused e)
        → Outcome (err e, s)
    in_doubt :
        {e : Error}
        → validate r input ≡ none
        → f.commit ≡ lost e
        → status_of placed.id s.orders ≡ none
        → Outcome (err e, recorded placed message s)

  create_with_outbox-Outcome :
      (out : Result (Unit {0}) × OrderDb)
      → validate r input ≡ none
      → Atomic f.commit (create_body f placed message) s out
      → Outcome (elim out.0 [ ok _ ↦ (ok placed, out.1) | err e ↦ (err e, out.1) ])
  create_with_outbox-Outcome out v (Atomic.committed h) =
      rw (create_body_lem f placed message s h)
        (Outcome.created v (create_body-absent f placed message s h))
  create_with_outbox-Outcome out v (Atomic.undone why) = Outcome.unchanged v why
  create_with_outbox-Outcome out v (Atomic.in_doubt c h) =
      rw (create_body_lem f placed message s h)
        (Outcome.in_doubt v c (create_body-absent f placed message s h))

  stored :
      validate r input ≡ none → Outcome ((create_with_outbox f placed message >> pure placed) s)
  unfolding create_with_outbox
  stored v =
      create_with_outbox-Outcome (create_with_outbox f placed message s) v
        (transaction-Atomic f.commit (create_body f placed message) s)

-- `CreateOrder` is atomic, whatever the database does. An input that fails `Validate` changes
-- nothing, and its error is returned. For any other it returns the order with the order's row, its
-- items' rows and the one outbox message all added, under an identifier that no order had; or it
-- returns an error with nothing changed, only when an insert fails or the commit is refused, and
-- that error is the one returned; or an error with all of that recorded, only when the commit's
-- reply is lost.
pub create_order_atomic :
    (r : Rules) (u : UuidText) (fl : FloatOps) (f : Faults) (d : Draws) (input : CreateOrderInput)
    (s : OrderDb)
    → Outcome r u fl f d input s (create_order r u fl f d input s)
unfolding create_order
create_order_atomic r u fl f d input s = elim (Option-cases (validate r input)) [
  | inl e ↦ rw (e, create_order) (stored r u fl f d input s e)
  | inr (x, e) ↦ rw (e, create_order) (Outcome.rejected e)
]
