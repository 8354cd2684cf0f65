-- ===== src/Messaging/Worker/Drained.antt =====
-- outbox_worker.go: the messages of one batch, and the failures among them.
use go_commerce_microservice.Prelude.{
  ℕ, zero, suc, ◌+◌, ◌≡◌, ◌≢◌, Option, none, some, String, List, [], ◌∷◌, All, arith, inl, inr,
  refl, ==_iff, sym,
}
use go_commerce_microservice.Error.{Error}
use go_commerce_microservice.Json.{Body}
use mathlib.Core.Path.{subst}
use go_commerce_microservice.Sql.{fine, statement}
use go_commerce_microservice.Sql.Rows.{update_where}
use go_commerce_microservice.Outbox.{
  OutboxMessage, Outbox, find_unprocessed, mark_as_processed, oldest_unprocessed, has_id, mark,
  bump_retry,
}
use go_commerce_microservice.Messaging.Worker.{
  Turn, after_publish, publish_one, publish_all, after_find, process,
}
use go_commerce_microservice.Messaging.Worker.Rows.{All-update_where, mark-cases, bump-cases}

-- The rows of this id are marked.
abbrev pub IsMarked : ℕ → Outbox → Type 0
IsMarked id table = All (λ r. r.id ≡ id → r.processed_at ≢ none) table

still_marked_row : (now : ℕ) (r : OutboxMessage) → (mark now r).processed_at ≢ none
unfolding mark
still_marked_row now r = ground arith

IsMarked-by_id :
    (id now : ℕ) (table : Outbox) → IsMarked id (update_where (has_id id) (mark now) table)
unfolding update_where mark
IsMarked-by_id id now [] = tt
IsMarked-by_id id now (r ∷ rs) = (ground (arith, ==_iff r.id id), IsMarked-by_id id now rs)

mark_keeps :
    (id other now : ℕ) (table : Outbox)
    → IsMarked id table
    → IsMarked id (update_where (has_id other) (mark now) table)
unfolding mark
mark_keeps id other now table h =
    All-update_where (λ r. r.id ≡ id → r.processed_at ≢ none)
      (λ r. r.id ≡ id → r.processed_at ≢ none) (has_id other) (mark now)
      (λ r e p same. still_marked_row now r) (λ r e p. p) table h

bump_keeps :
    (id other : ℕ) (table : Outbox)
    → IsMarked id table
    → IsMarked id (update_where (has_id other) bump_retry table)
unfolding bump_retry
bump_keeps id other table h =
    All-update_where (λ r. r.id ≡ id → r.processed_at ≢ none)
      (λ r. r.id ≡ id → r.processed_at ≢ none) (has_id other) bump_retry (λ r e p. p) (λ r e p. p)
      table h

abbrev pub nth : ℕ → List OutboxMessage → Option OutboxMessage
nth n [] = none
nth zero (m ∷ ms) = some m
nth (suc n) (m ∷ ms) = nth n ms

add_zero : (i : ℕ) → i + 0 ≡ i
add_zero i = omega arith

zero_add : (i : ℕ) → 0 + i ≡ i
zero_add i = omega arith

add_suc : (i n : ℕ) → i + suc n ≡ suc i + n
add_suc i n = omega arith

module _ {L : Type 0} where
  after_publish-IsMarked :
      (turn : Turn L) (m : OutboxMessage) (id : ℕ) (table : Outbox) (reply : Option Error) (l : L)
      → IsMarked id table
      → IsMarked id (after_publish turn m table (reply, l)).0
  unfolding after_publish
  after_publish-IsMarked turn m id table none l h =
      elim (mark-cases turn.mark_fault turn.now m.id table) [
        | inl e ↦ rw e h
        | inr e ↦ rw e (mark_keeps id m.id turn.now table h)
      ]
  after_publish-IsMarked turn m id table (some w) l h =
      elim (bump-cases turn.bump_fault m.id table) [
        | inl e ↦ rw e h
        | inr e ↦ rw e (bump_keeps id m.id table h)
      ]

  publish_all-IsMarked :
      (turns : ℕ → Turn L) (i : ℕ) (ms : List OutboxMessage) (id : ℕ) (s : Outbox × L)
      → IsMarked id s.0
      → IsMarked id (publish_all turns i ms s).0
  unfolding publish_all publish_one
  publish_all-IsMarked turns i [] id s h = h
  publish_all-IsMarked turns i (m ∷ ms) id (table, l) h =
      let (reply, l') = (turns i).publish m.event_type m.payload l in
      publish_all-IsMarked turns (suc i) ms id (after_publish (turns i) m table (reply, l'))
        (after_publish-IsMarked (turns i) m id table reply l' h)

  -- What holds of the publisher's state throughout a batch, and makes the turn publish the message.
  pub record Publishes (P : L → Type 0) (turn : Turn L) (m : OutboxMessage) : Type 0 where
    pub publishes : (l : L) → P l → (turn.publish m.event_type m.payload l).0 ≡ none
    pub marks : turn.mark_fault ≡ fine

  abbrev pub Keeps : (L → Type 0) → Turn L → Type 0
  Keeps P turn =
      (event_type : String) (payload : Body) (l : L) → P l → P (turn.publish event_type payload l).1

  after_publish-marks :
      (turn : Turn L) (m : OutboxMessage) (table : Outbox) (reply : Option Error) (l : L)
      → reply ≡ none
      → turn.mark_fault ≡ fine
      → IsMarked m.id (after_publish turn m table (reply, l)).0
  unfolding after_publish mark_as_processed statement
  after_publish-marks turn m table none l e f = rw f (IsMarked-by_id m.id turn.now table)
  after_publish-marks turn m table (some w) l e f = absurd (ground arith)

  after_publish-link :
      (turn : Turn L) (m : OutboxMessage) (table : Outbox) (reply : Option Error) (l : L)
      → (after_publish turn m table (reply, l)).1 ≡ l
  unfolding after_publish
  after_publish-link turn m table none l = refl
  after_publish-link turn m table (some w) l = refl

  publish_all-marks :
      (P : L → Type 0) (turns : ℕ → Turn L) (i n : ℕ) (ms : List OutboxMessage) (s : Outbox × L)
      (m : OutboxMessage)
      → ((j : ℕ) → Keeps P (turns j))
      → P s.1
      → nth n ms ≡ some m
      → Publishes P (turns (i + n)) m
      → IsMarked m.id (publish_all turns i ms s).0
  unfolding publish_all publish_one
  publish_all-marks P turns i n [] s m keeps p there f = absurd (ground arith)
  publish_all-marks P turns i zero (m ∷ ms) (table, l) n keeps p there f =
      let (reply, l') = (turns i).publish m.event_type m.payload l in
      let same : m ≡ n = ground arith in
      let first : Publishes P (turns i) m =
        subst (Publishes P (turns i)) (sym same) (rw (add_zero i) at f) in
      rw (sym same) (
        publish_all-IsMarked turns (suc i) ms m.id (after_publish (turns i) m table (reply, l'))
          (after_publish-marks (turns i) m table reply l' (first.publishes l p) first.marks))
  publish_all-marks P turns i (suc n) (m ∷ ms) (table, l) o keeps p there f =
      let (reply, l') = (turns i).publish m.event_type m.payload l in
      publish_all-marks P turns (suc i) n ms (after_publish (turns i) m table (reply, l')) o keeps
        (subst P (sym (after_publish-link (turns i) m table reply l'))
          (keeps i m.event_type m.payload l p))
        there (rw (add_suc i n) at f)

  pub process-marks :
      (P : L → Type 0) (batch_size : ℕ) (turns : ℕ → Turn L) (table : Outbox) (l : L) (n : ℕ)
      (m : OutboxMessage)
      → ((j : ℕ) → Keeps P (turns j))
      → P l
      → nth n (oldest_unprocessed batch_size table) ≡ some m
      → Publishes P (turns n) m
      → IsMarked m.id (process fine batch_size turns (table, l)).0
  unfolding process after_find find_unprocessed statement
  process-marks P batch_size turns table l n m keeps p there f =
      publish_all-marks P turns 0 n (oldest_unprocessed batch_size table) (table, l) m keeps p there
        (rw (sym (zero_add n)) at f)
