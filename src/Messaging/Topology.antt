-- ===== src/Messaging/Topology.antt =====
-- The consumers' Start, and `declare` of services/order-service/internal/adapter/messaging/retry_policy.go:
-- exchanges, queues and bindings are declared on the broker, then the deliveries are handled in turn.
-- Each command to the broker takes a fault that the environment chooses.
pub mod Consumers
pub mod Returned
use text.Mathlib.Text.{◌==◌ as str_eq}
use go_commerce_microservice.Prelude.{
  ℕ, suc, ◌+◌, Bool, true, false, ◌&&◌, ◌||◌, Option, none, some, String, List, [], ◌∷◌, ◌++◌, ◌==◌,
  if◌then◌else◌,
}
use go_commerce_microservice.Prelude.Int.{ℤ, pos, pos_part, neg_part}
use go_commerce_microservice.Error.{Error}
use go_commerce_microservice.Sql.{Result, ok, err, Fault, Call, pure, statement}
use go_commerce_microservice.Sql.Rows.{any}
use go_commerce_microservice.Messaging.Delivery.{Delivery}
use go_commerce_microservice.Messaging.Retry.{RetryPolicy}

-- A queue's `x-message-ttl` in milliseconds, and where its messages go when it is over.
pub record Arguments : Type 0 where
  pub message_ttl : ℤ
  pub dead_letter_exchange : String
  pub dead_letter_routing_key : String

-- The calls on a channel. Exchanges and queues are durable.
pub data Command : Type 0 where
  confirm : Command
  exchange_declare : String → String → Command
  queue_declare : String → Option Arguments → Command
  queue_bind : String → String → String → Command
  consume : String → Command

abbrev same_int : ℤ → ℤ → Bool
same_int a b = pos_part a == pos_part b && neg_part a == neg_part b

abbrev same_arguments : Option Arguments → Option Arguments → Bool
same_arguments none none = true
same_arguments (some a) (some b) =
    same_int a.message_ttl b.message_ttl
    && str_eq a.dead_letter_exchange b.dead_letter_exchange
    && str_eq a.dead_letter_routing_key b.dead_letter_routing_key
same_arguments _ _ = false

abbrev pub same_command : Command → Command → Bool
same_command Command.confirm Command.confirm = true
same_command (Command.exchange_declare n k) (Command.exchange_declare m l) =
    str_eq n m && str_eq k l
same_command (Command.queue_declare n a) (Command.queue_declare m b) =
    str_eq n m && same_arguments a b
same_command (Command.queue_bind q k x) (Command.queue_bind p j y) =
    str_eq q p && str_eq k j && str_eq x y
same_command (Command.consume q) (Command.consume p) = str_eq q p
same_command _ _ = false

-- What has been declared, bound and subscribed.
abbrev pub Topology : Type 0
Topology = List Command

abbrev pub has : Command → Topology → Bool
has c t = any (same_command c) t

-- What is declared again is there already.
abbrev pub establish : Command → Topology → Topology
establish c t = if has c t then t else t ++ c ∷ []

-- A command's error is returned as it is, or wrapped.
abbrev pub labelled : Option String → Error → Error
labelled none e = e
labelled (some label) e = Error.wrapped label e

abbrev pub relabel : Option String → Result (Unit {0}) → Result (Unit {0})
relabel label (ok u) = ok u
relabel label (err e) = err (labelled label e)

unfoldable pub issue : Fault → Option String → Command → Call Topology (Unit {0})
issue fault label c t =
    let (r, t') = statement fault (λ (now : Topology). (ok tt, establish c now)) t in
    (relabel label r, t')

abbrev pub next : Result (Unit {0}) → Call Topology (Unit {0}) → Call Topology (Unit {0})
next (ok u) rest t = rest t
next (err e) rest t = (err e, t)

-- The commands one after another, up to the first error.
unfoldable pub issue_all :
    (ℕ → Fault) → ℕ → List (Option String × Command) → Call Topology (Unit {0})
unfolding issue
issue_all faults n [] t = (ok tt, t)
issue_all faults n ((label, c) ∷ cs) t =
    let (r, t') = issue (faults n) label c t in next r (issue_all faults (suc n) cs) t'

abbrev pub plain : Command → Option String × Command
plain c = (none, c)

-- `declare`, for a delay in milliseconds.
unfoldable pub declare : RetryPolicy → ℤ → List (Option String × Command)
declare p retry_delay =
    (some "enable publisher confirms for retries", Command.confirm)
    ∷ (
      some "declare dead-letter exchange",
      Command.exchange_declare p.dead_letter_exchange "direct",
    )
    ∷ (some "declare dead-letter queue", Command.queue_declare p.dead_letter_queue none)
    ∷ (
      some "bind dead-letter queue",
      Command.queue_bind p.dead_letter_queue p.dead_letter_queue p.dead_letter_exchange,
    )
    ∷ (
      some "declare retry queue",
      Command.queue_declare p.retry_queue (
          some (record {
            message_ttl = retry_delay;
            dead_letter_exchange = p.source_exchange;
            dead_letter_routing_key = p.source_routing_key;
          })),
    )
    ∷ []

-- What the loop's `select` sees: the context is done, the channel is closed, or a delivery with
-- what the environment does to it.
pub data Signal (T : Type 0) : Type 0 where
  done : Signal T
  closed : Signal T
  delivered : T → Delivery → Signal T

-- The loop waits for more, or has returned.
pub data Loop : Type 0 where
  running : Loop
  returned : Option Error → Loop

module _ {T S : Type 0} where
  unfoldable pub consume_loop : (T → Delivery → S → S) → String → List (Signal T) → S → Loop × S
  consume_loop handle closing [] s = (Loop.running, s)
  consume_loop handle closing (Signal.done ∷ signals) s = (Loop.returned none, s)
  consume_loop handle closing (Signal.closed ∷ signals) s =
      (Loop.returned (some (Error.message closing)), s)
  consume_loop handle closing (Signal.delivered t d ∷ signals) s =
      consume_loop handle closing signals (handle t d s)

  -- The declarations, then the loop.
  unfoldable pub start :
      (ℕ → Fault)
      → List (Option String × Command)
      → (T → Delivery → S → S)
      → String
      → List (Signal T)
      → Topology × S
      → Loop × Topology × S
  unfolding consume_loop
  start faults commands handle closing signals (t, s) =
      let (r, t') = issue_all faults 0 commands t in
      let (loop, s') = consume_loop handle closing signals s in
      elim r [ err e ↦ (Loop.returned (some e), t', s) | ok u ↦ (loop, t', s') ]
