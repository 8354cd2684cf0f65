-- ===== src/Order/Handling.antt =====
-- `HandleConfirmOrder` and `HandleRejectOrder` under faults and redelivery.
use go_commerce_microservice.Prelude.{
  ℕ, ◌≡◌, refl, Bool, true, false, [], ◌∷◌, ◌++◌, arith, ◌==◌, String, Bool-cases, inl, inr, ◌∙◌,
  ap, ◌⊎◌, ◌≢◌,
}
use go_commerce_microservice.External.{Uuid, Time}
use go_commerce_microservice.Json.{Body}
use go_commerce_microservice.Error.{Error}
use go_commerce_microservice.Sql.{
  ok, err, Fault, fine, refused, lost, statement, Call, bind-ok, bind_value, bind_error, ◌>>◌,
  Result-cases,
}
use go_commerce_microservice.Sql.Rows.{
  insert_unique, any, any-append, any-append_self, count_where-pos, update_where,
}
use go_commerce_microservice.Order.Domain.{OrderStatus}
use go_commerce_microservice.Order.Schema.{Columns, InboxMessageDataModel, OrderDb}
use go_commerce_microservice.Order.Repository.{
  Faults, settle_order, is_processed, save_processed, is_open, set_status, has_message,
}
use go_commerce_microservice.Order.Service.{after_lookup, handle_once}

-- The inbox holds the message.
abbrev pub remembers : Uuid → OrderDb → Bool
remembers message_id s = any (has_message message_id) s.inbox

abbrev any_columns : Columns
any_columns = record { numeric = λ x. true; varchar = λ s. true }

-- The environment of a call that meets no fault.
abbrev pub no_faults : Faults
no_faults = record {
  columns = any_columns;
  create_order = fine;
  create_items = fine;
  create_outbox = fine;
  commit = fine;
  is_processed = fine;
  update_order = fine;
  save_processed = fine;
}

is_processed_lem :
    (f : Fault) (m : Uuid) (s : OrderDb)
    → ((e : Error) × (f ≢ fine) × (is_processed f m s ≡ (err e, s)))
      ⊎ (is_processed f m s ≡ (ok (remembers m s), s))
unfolding is_processed statement
is_processed_lem fine m s = inr (rw count_where-pos)
is_processed_lem (refused e) m s = inl (e, (λ p. cc), refl)
is_processed_lem (lost e) m s = inl (e, (λ p. cc), refl)

eq_self : (m : ℕ) → (m == m) ≡ true
eq_self m = ground arith

remembers-append :
    (m : Uuid) (row : InboxMessageDataModel) (s : OrderDb)
    → row.message_id ≡ m
    → remembers m (record s { inbox = s.inbox ++ row ∷ [] }) ≡ true
unfolding has_message
remembers-append m row s h = any-append_self (λ r. r.message_id == m) s.inbox row (rw h (eq_self m))

save_processed-remembers :
    (f : Fault) (id : Uuid) (now : Time) (m : Uuid) (event_type : String) (payload : Body)
    (s : OrderDb)
    → (save_processed f id now m event_type payload s).0 ≡ ok tt
    → remembers m (save_processed f id now m event_type payload s).1 ≡ true
unfolding save_processed statement insert_unique has_message
save_processed-remembers f id now m event_type payload s h =
    let row : InboxMessageDataModel = record {
      id = id;
      message_id = m;
      event_type = event_type;
      payload = payload;
      processed_at = now;
    } in
    ground (arith, remembers-append m row s refl)

-- A save keeps what the inbox holds, and so does an update of the orders before it.
save_processed-keeps :
    (f : Fault) (id : Uuid) (now : Time) (m : Uuid) (event_type : String) (payload : Body)
    (s : OrderDb) (k : Uuid)
    → remembers k s ≡ true
    → remembers k (save_processed f id now m event_type payload s).1 ≡ true
unfolding save_processed statement insert_unique
save_processed-keeps f id now m event_type payload s k h =
    let row : InboxMessageDataModel = record {
      id = id;
      message_id = m;
      event_type = event_type;
      payload = payload;
      processed_at = now;
    } in
    ground (arith, any-append (has_message k) s.inbox (row ∷ []))

bind-state :
    (update save : Call OrderDb (Unit {0})) (s : OrderDb)
    → (((update >> save) s).1 ≡ (update s).1) ⊎ (((update >> save) s).1 ≡ (save (update s).1).1)
bind-state update save s = elim (Result-cases (update s).0) [
  | inl (a, e) ↦ inr (ground arith)
  | inr (e, p) ↦ inl (ground arith)
]

then_save-remembers :
    (f : Fault) (id : Uuid) (now : Time) (m : Uuid) (event_type : String) (payload : Body)
    (update : Call OrderDb (Unit {0})) (s : OrderDb) (k : Uuid)
    → ((t : OrderDb) → (update t).1.inbox ≡ t.inbox)
    → remembers k s ≡ true
    → remembers k ((update >> save_processed f id now m event_type payload) s).1 ≡ true
then_save-remembers f id now m event_type payload update s k same h =
    let save = save_processed f id now m event_type payload in
    let kept : remembers k (update s).1 ≡ true = ap (any (has_message k)) (same s) ∙ h in
    elim (bind-state update save s) [
      | inl stopped ↦ rw stopped kept
      | inr ran ↦ rw ran (save_processed-keeps f id now m event_type payload (update s).1 k kept)
    ]

module _ (f : Faults) (now : Time) (id m : Uuid) (event_type : String) (payload : Body)
    (update : Call OrderDb (Unit {0})) (s : OrderDb) where
  -- A handling fails to look the message up, or finds it, or goes on to the two writes.
  pub handle_once-cases :
      ((e : Error) × (f.is_processed ≢ fine)
        × (handle_once f now id m event_type payload update s ≡ (err e, s)))
      ⊎ ((remembers m s ≡ true) × (handle_once f now id m event_type payload update s ≡ (ok tt, s)))
      ⊎ ((remembers m s ≡ false)
          × (handle_once f now id m event_type payload update s
              ≡ (update >> save_processed f.save_processed id now m event_type payload) s))
  unfolding handle_once
  handle_once-cases = elim (is_processed_lem f.is_processed m s) [
    | inl (e, fault, read) ↦ inl (
      e,
      fault,
      bind_error (is_processed f.is_processed m) (after_lookup f now id m event_type payload update)
          s read,
    )
    | inr read ↦ elim (Bool-cases (remembers m s)) [
      | inl old ↦ inr (
          inl (
            old,
            bind_value (is_processed f.is_processed m)
                (after_lookup f now id m event_type payload update) s
                (read ∙ ap (λ b. (ok b, s)) old),
          ))
      | inr new ↦ inr (
          inr (
            new,
            bind_value (is_processed f.is_processed m)
                (after_lookup f now id m event_type payload update) s
                (read ∙ ap (λ b. (ok b, s)) new),
          ))
    ]
  ]

  -- Once a message is remembered, its handling changes nothing, whatever the faults.
  pub handle_once-remembered :
      remembers m s ≡ true → (handle_once f now id m event_type payload update s).1 ≡ s
  handle_once-remembered h = elim handle_once-cases [
    | inl (e, fault, failed_read) ↦ ap (λ out. out.1) failed_read
    | inr (inl (old, known)) ↦ ap (λ out. out.1) known
    | inr (inr (new, run)) ↦ absurd (ground arith)
  ]

  -- A handling that returns no error has left the message in the inbox.
  pub handle_once-ok :
      (handle_once f now id m event_type payload update s).0 ≡ ok tt
      → remembers m (handle_once f now id m event_type payload update s).1 ≡ true
  handle_once-ok h = elim handle_once-cases [
    | inl (e, fault, failed_read) ↦ absurd (ground arith)
    | inr (inl (old, known)) ↦ rw known old
    | inr (inr (new, run)) ↦
        let save = save_processed f.save_processed id now m event_type payload in
        let h' : ((update >> save) s).0 ≡ ok tt = rw run at h in
        let (a, ran, eq) = bind-ok update (λ _. save) s tt h' in
        rw (run, eq)
          (save_processed-remembers f.save_processed id now m event_type payload (update s).1
            (rw eq at h'))
  ]

  -- Once a message is in the inbox, it stays there whatever is handled.
  pub handle_once-remembers :
      (k : Uuid)
      → ((t : OrderDb) → (update t).1.inbox ≡ t.inbox)
      → remembers k s ≡ true
      → remembers k (handle_once f now id m event_type payload update s).1 ≡ true
  handle_once-remembers k same h = elim handle_once-cases [
    | inl (e, fault, failed_read) ↦ rw failed_read h
    | inr (inl (old, known)) ↦ rw known h
    | inr (inr (new, run)) ↦
        rw run (then_save-remembers f.save_processed id now m event_type payload update s k same h)
  ]

-- What an attempt, whole or broken off, has done to the orders: nothing yet, or the update.
pub attempt :
    (to : OrderStatus) (f : Fault) (now : Time) (order_id : Uuid) (save : Call OrderDb (Unit {0}))
    (s : OrderDb)
    → ((t : OrderDb) → (save t).1.orders ≡ t.orders)
    → (((settle_order to f now order_id >> save) s).1 ≡ s)
      ⊎ (((settle_order to f now order_id >> save) s).1.orders
          ≡ update_where (is_open order_id) (set_status to now) s.orders)
unfolding settle_order statement
attempt to fine now order_id save s h = inr (h _)
attempt to (refused e) now order_id save s h = inl refl
attempt to (lost e) now order_id save s h = inr refl
