-- ===== src/Outbox.antt =====
-- The outbox of every service: the message record, and the three calls of the outbox repository
-- on the table `outbox_messages`: services/order-service/internal/adapter/repository/
-- outbox_repository_pg.go, which the inventory and catalog-write services carry too.
use go_commerce_microservice.Prelude.{
  ℕ, ◌+◌, String, Bool, true, false, Option, none, some, List, [], ◌∷◌, leb, ◌==◌, if◌then◌else◌,
  take,
}
use go_commerce_microservice.External.{Uuid, Time}
use go_commerce_microservice.Json.{Body}
use go_commerce_microservice.Sql.{Fault, Call, statement, ok}
use go_commerce_microservice.Sql.Rows.{select_where, update_where}

pub record OutboxMessage : Type 0 where
  pub id : Uuid
  pub aggregate_id : Uuid
  pub aggregate_type : String
  pub event_type : String
  pub payload : Body
  pub retry_count : ℕ
  pub created_at : Time
  pub processed_at : Option Time

abbrev pub Outbox : Type 0
Outbox = List OutboxMessage

-- `processed_at IS NULL`
abbrev pub is_unprocessed : OutboxMessage → Bool
is_unprocessed m = elim m.processed_at [ none ↦ true | some t ↦ false ]

-- `ORDER BY created_at ASC`; messages of one instant stay in insertion order.
unfoldable pub insert_by_time : OutboxMessage → Outbox → Outbox
insert_by_time m [] = m ∷ []
insert_by_time m (n ∷ ms) =
    let later = n ∷ insert_by_time m ms in
    if leb m.created_at n.created_at then m ∷ n ∷ ms else later

unfoldable pub order_by_time : Outbox → Outbox
order_by_time [] = []
order_by_time (m ∷ ms) = insert_by_time m (order_by_time ms)

unfoldable pub oldest_unprocessed : ℕ → Outbox → Outbox
unfolding order_by_time select_where
oldest_unprocessed limit table = take limit (order_by_time (select_where is_unprocessed table))

unfoldable pub find_unprocessed : Fault → ℕ → Call Outbox Outbox
find_unprocessed fault limit = statement fault λ table. (ok (oldest_unprocessed limit table), table)

abbrev pub has_id : Uuid → OutboxMessage → Bool
has_id id m = m.id == id

unfoldable pub mark : Time → OutboxMessage → OutboxMessage
mark now m = record m { processed_at = some now }

unfoldable pub bump_retry : OutboxMessage → OutboxMessage
bump_retry m = record m { retry_count = m.retry_count + 1 }

unfoldable pub mark_as_processed : Fault → Time → Uuid → Call Outbox (Unit {0})
unfolding mark
mark_as_processed fault now id =
    statement fault λ table. (ok tt, update_where (has_id id) (mark now) table)

unfoldable pub increment_retry : Fault → Uuid → Call Outbox (Unit {0})
unfolding bump_retry
increment_retry fault id =
    statement fault λ table. (ok tt, update_where (has_id id) bump_retry table)
