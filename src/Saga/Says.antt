-- ===== src/Saga/Says.antt =====
-- What an outbox says of its aggregates, with one more row.
use go_commerce_microservice.Prelude.{
  ◌≡◌, refl, ◌∙◌, none, String, List, [], ◌∷◌, ◌++◌, ◌⊎◌, inl, inr, arith, All, Option-cases,
  ==_iff,
}
use go_commerce_microservice.External.{Uuid}
use go_commerce_microservice.Json.{Body}
use go_commerce_microservice.Outbox.{OutboxMessage, Outbox}
use go_commerce_microservice.Messaging.Worker.Rows.{All-map}
use go_commerce_microservice.Saga.Events.{event_of, event_of-append, Each}
use go_commerce_microservice.Saga.Agreement.{Says}

-- What a table says it still says with one more row.
pub Says-append :
    (table : Outbox) (m : OutboxMessage) (id : Uuid) (e : String) (b : Body)
    → Says table id e b
    → Says (table ++ m ∷ []) id e b
Says-append table m id e b h = event_of-append id table m ∙ rw h refl

-- A new row speaks for an aggregate that had none.
pub Says-new :
    (table : Outbox) (m : OutboxMessage)
    → event_of m.aggregate_id table ≡ none
    → Says (table ++ m ∷ []) m.aggregate_id m.event_type m.payload
Says-new table m h =
    event_of-append m.aggregate_id table m
    ∙ rw h (ground (arith, ==_iff m.aggregate_id m.aggregate_id))

-- What the longer table says is old, or is the new row.
pub Says-cases :
    (table : Outbox) (m : OutboxMessage) (id : Uuid) (e : String) (b : Body)
    → Says (table ++ m ∷ []) id e b
    → Says table id e b
      ⊎ ((event_of id table ≡ none) × (m.aggregate_id ≡ id) × (m.event_type ≡ e) × (m.payload ≡ b))
Says-cases table m id e b h = elim (Option-cases (event_of id table)) [
  | inl gone ↦ inr (ground (arith, event_of-append id table m, gone, ==_iff m.aggregate_id id))
  | inr (x, old) ↦ inl (ground (arith, event_of-append id table m, old))
]

pub All-snoc :
    {A : Type 0} (P : A → Type 0) (xs : List A) (x : A) → All P xs → P x → All P (xs ++ x ∷ [])
All-snoc P [] x h p = (p, tt)
All-snoc P (y ∷ xs) x (q, qs) p = (q, All-snoc P xs x qs p)

pub first-append :
    (table : Outbox) (m : OutboxMessage)
    → event_of m.aggregate_id table ≡ none
    → Each (Says table) table
    → Each (Says (table ++ m ∷ [])) (table ++ m ∷ [])
first-append table m new h =
    All-snoc (λ n. Says (table ++ m ∷ []) n.aggregate_id n.event_type n.payload) table m
      (All-map (λ n. Says table n.aggregate_id n.event_type n.payload)
        (λ n. Says (table ++ m ∷ []) n.aggregate_id n.event_type n.payload)
        (λ n p. Says-append table m n.aggregate_id n.event_type n.payload p) table h)
      (Says-new table m new)
