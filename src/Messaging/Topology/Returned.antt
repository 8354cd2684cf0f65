-- ===== src/Messaging/Topology/Returned.antt =====
-- Where the copies of a failed delivery go once a consumer has declared its queues.
use text.Mathlib.Text.{◌==◌ as str_eq}
use go_commerce_microservice.Prelude.{
  ℕ, suc, ◌≡◌, refl, ap, ◌∙◌, true, Option, none, some, String, List, [], ◌∷◌, All, arith, eq_iff,
  ==_iff, Bool-cases, inl, inr,
}
use mathlib.Core.Path.{subst, sym}
use go_commerce_microservice.Prelude.Int.{ℤ, pos_part, neg_part}
use go_commerce_microservice.Sql.{Result, ok, err, Fault, fine, refused, lost, statement}
use go_commerce_microservice.Sql.Rows.{any-append, any-append_self}
use go_commerce_microservice.Messaging.Delivery.{Delivery}
use go_commerce_microservice.Messaging.Retry.{
  new_retry_policy, retry_message, dead_letter_message, republish,
}
use go_commerce_microservice.Messaging.Topology.{
  Arguments, Command, Topology, same_command, has, establish, issue, next, issue_all, declare,
}
use go_commerce_microservice.Messaging.Topology.Consumers.{subscribe_with_retry}

same_refl : (s : String) → str_eq s s ≡ true
same_refl s = ground (arith, eq_iff s s)

same_command_refl : (c : Command) → same_command c c ≡ true
same_command_refl Command.confirm = refl
same_command_refl (Command.exchange_declare n k) = rw (same_refl n, same_refl k) refl
same_command_refl (Command.queue_declare n none) = rw (same_refl n) refl
same_command_refl (Command.queue_declare n (some a)) =
    rw (same_refl n, same_refl a.dead_letter_exchange, same_refl a.dead_letter_routing_key)
      (ground (
        arith,
        ==_iff (pos_part a.message_ttl) (pos_part a.message_ttl),
        ==_iff (neg_part a.message_ttl) (neg_part a.message_ttl),
      ))
same_command_refl (Command.queue_bind q k x) = rw (same_refl q, same_refl k, same_refl x) refl
same_command_refl (Command.consume q) = rw (same_refl q) refl

has-establish : (c : Command) (t : Topology) → has c (establish c t) ≡ true
has-establish c t = elim (Bool-cases (has c t)) [
  | inl there ↦ rw there there
  | inr missing ↦ rw missing (any-append_self (same_command c) t c (same_command_refl c))
]

still_has : (c d : Command) (t : Topology) → has c t ≡ true → has c (establish d t) ≡ true
still_has c d t h = elim (Bool-cases (has d t)) [
  | inl there ↦ rw there h
  | inr missing ↦ rw missing (any-append (same_command c) t (d ∷ []) ∙ rw h refl)
]

-- A command that returns no error has been carried out.
issue-ok :
    (fault : Fault) (label : Option String) (c : Command) (t : Topology)
    → (issue fault label c t).0 ≡ ok tt
    → (issue fault label c t).1 ≡ establish c t
unfolding issue statement
issue-ok fine label c t h = refl
issue-ok (refused e) label c t h = absurd (ground arith)
issue-ok (lost e) label c t h = refl

issue_keeps :
    (d : Command) (fault : Fault) (label : Option String) (c : Command) (t : Topology)
    → has d t ≡ true
    → has d (issue fault label c t).1 ≡ true
unfolding issue statement
issue_keeps d fine label c t h = still_has d c t h
issue_keeps d (refused e) label c t h = h
issue_keeps d (lost e) label c t h = still_has d c t h

next_keeps :
    (d : Command) (r : Result (Unit {0})) (rest : Topology → Result (Unit {0}) × Topology)
    (t : Topology)
    → ((s : Topology) → has d s ≡ true → has d (rest s).1 ≡ true)
    → has d t ≡ true
    → has d (next r rest t).1 ≡ true
next_keeps d (ok u) rest t k h = k t h
next_keeps d (err e) rest t k h = h

issue_all_keeps :
    (d : Command) (faults : ℕ → Fault) (n : ℕ) (cs : List (Option String × Command)) (t : Topology)
    → has d t ≡ true
    → has d (issue_all faults n cs t).1 ≡ true
unfolding issue_all
issue_all_keeps d faults n [] t h = h
issue_all_keeps d faults n ((label, c) ∷ cs) t h =
    next_keeps d (issue (faults n) label c t).0 (issue_all faults (suc n) cs)
      (issue (faults n) label c t).1 (λ s there. issue_all_keeps d faults (suc n) cs s there)
      (issue_keeps d (faults n) label c t h)

next-ok :
    (r : Result (Unit {0})) (rest : Topology → Result (Unit {0}) × Topology) (t : Topology)
    → (next r rest t).0 ≡ ok tt
    → (r ≡ ok tt) × (next r rest t ≡ rest t)
next-ok (ok tt) rest t h = (refl, refl)
next-ok (err e) rest t h = absurd (ground arith)

abbrev pub AllHave : List (Option String × Command) → Topology → Type 0
AllHave cs t = All (λ c. has c.1 t ≡ true) cs

-- Commands that all return no error have all been carried out.
issue_all-AllHave :
    (faults : ℕ → Fault) (n : ℕ) (cs : List (Option String × Command)) (t : Topology)
    → (issue_all faults n cs t).0 ≡ ok tt
    → AllHave cs (issue_all faults n cs t).1
unfolding issue_all
issue_all-AllHave faults n [] t h = tt
issue_all-AllHave faults n ((label, c) ∷ cs) t h =
    let r = (issue (faults n) label c t).0 in
    let t' = (issue (faults n) label c t).1 in
    let (ran, goes_on) = next-ok r (issue_all faults (suc n) cs) t' h in
    let here : has c t' ≡ true = rw (issue-ok (faults n) label c t ran) (has-establish c t) in
    subst (AllHave ((label, c) ∷ cs)) (sym (ap (λ out. out.1) goes_on)) (
      issue_all_keeps c faults (suc n) cs t' here,
      issue_all-AllHave faults (suc n) cs t' (rw goes_on at h),
    )

-- Where a publishing gets to: the queue that it names, a queue that is bound to its key, or,
-- from a queue with a delay, where that queue's messages go.
pub data Reaches (t : Topology) : String → String → String → Type 0 where
  by_name :
      {q : String} (a : Option Arguments)
      → has (Command.queue_declare q a) t ≡ true
      → Reaches t "" q q
  by_binding : {q k x : String} → has (Command.queue_bind q k x) t ≡ true → Reaches t x k q
  after_delay :
      {x k q : String} (delayed : String) (a : Arguments)
      → Reaches t x k delayed
      → has (Command.queue_declare delayed (some a)) t ≡ true
      → Reaches t a.dead_letter_exchange a.dead_letter_routing_key q
      → Reaches t x k q

-- Once a consumer of the order service has declared its queues without an error, whatever was
-- declared before, a copy that `retry` publishes of a failed delivery reaches the retry queue and,
-- after the delay, the consumer's own queue again, and a copy that `deadLetter` publishes reaches
-- the dead-letter queue.
pub failed_delivery_returns :
    (faults : ℕ → Fault) (exchange queue key now reason : String) (max_attempts retry_delay : ℤ)
    (d : Delivery) (t : Topology)
    → let p = new_retry_policy exchange key queue max_attempts in
      let out = issue_all faults 0 (subscribe_with_retry exchange queue key p retry_delay) t in
      out.0 ≡ ok tt
      → let again = retry_message p d reason in
        let dead = dead_letter_message p now d reason in
        Reaches out.1 again.exchange again.routing_key p.retry_queue
        × Reaches out.1 again.exchange again.routing_key queue
        × Reaches out.1 dead.exchange dead.routing_key p.dead_letter_queue
unfolding subscribe_with_retry declare retry_message dead_letter_message republish new_retry_policy
failed_delivery_returns faults exchange queue key now reason max_attempts retry_delay d t h =
    let p = new_retry_policy exchange key queue max_attempts in
    let (x, (q, (c, (dx, (dq, (db, (rq, (b, rest)))))))) =
      issue_all-AllHave faults 0 (subscribe_with_retry exchange queue key p retry_delay) t h in
    let waits : Arguments = record {
      message_ttl = retry_delay;
      dead_letter_exchange = exchange;
      dead_letter_routing_key = key;
    } in
    let first = Reaches.by_name (some waits) rq in
    (
      first,
      Reaches.after_delay p.retry_queue waits first rq (Reaches.by_binding b),
      Reaches.by_binding db,
    )
