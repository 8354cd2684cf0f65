-- ===== src/Messaging/Worker.antt =====
-- services/order-service/internal/worker/outbox_worker.go, which the inventory and catalog-write
-- services carry too: one tick publishes the oldest unprocessed messages of the outbox.
pub mod Rows
pub mod Delivered
pub mod Stored
pub mod Drained
pub mod Apart
use go_commerce_microservice.Prelude.{ℕ, suc, Option, none, some, String, List, [], ◌∷◌}
use go_commerce_microservice.Error.{Error}
use go_commerce_microservice.External.{Time}
use go_commerce_microservice.Json.{Body}
use go_commerce_microservice.Sql.{Fault, Result, ok, err}
use go_commerce_microservice.Outbox.{
  OutboxMessage, Outbox, find_unprocessed, mark_as_processed, increment_retry,
}

-- `EventPublisher.Publish` over the publisher's state `L`.
abbrev pub Publish : Type 0 → Type 0
Publish L = String → Body → L → Option Error × L

-- What the environment does to one message of a batch: how it is published, and how its row's
-- update goes, at which time.
pub record Turn (L : Type 0) : Type 0 where
  pub publish : Publish L
  pub mark_fault : Fault
  pub bump_fault : Fault
  pub now : Time

module _ {L : Type 0} where
  unfoldable pub after_publish : Turn L → OutboxMessage → Outbox → Option Error × L → Outbox × L
  after_publish turn m table (some e, l) = ((increment_retry turn.bump_fault m.id table).1, l)
  after_publish turn m table (none, l) =
      ((mark_as_processed turn.mark_fault turn.now m.id table).1, l)

  unfoldable pub publish_one : Turn L → OutboxMessage → Outbox × L → Outbox × L
  unfolding after_publish
  publish_one turn m (table, l) = after_publish turn m table (turn.publish m.event_type m.payload l)

  -- The loop over the messages, whose turns are numbered from `i`.
  unfoldable pub publish_all : (ℕ → Turn L) → ℕ → List OutboxMessage → Outbox × L → Outbox × L
  publish_all turns i [] s = s
  publish_all turns i (m ∷ ms) s = publish_all turns (suc i) ms (publish_one (turns i) m s)

  unfoldable pub after_find : (ℕ → Turn L) → Result Outbox → Outbox × L → Outbox × L
  after_find turns (err e) s = s
  after_find turns (ok messages) s = publish_all turns 0 messages s

  unfoldable pub process : Fault → ℕ → (ℕ → Turn L) → Outbox × L → Outbox × L
  unfolding after_find
  process find_fault batch_size turns (table, l) =
      after_find turns (find_unprocessed find_fault batch_size table).0 (table, l)
