-- ===== src/Messaging/Worker/Delivered.antt =====
-- outbox_worker.go: the rows that a tick marks, and what is delivered.
use go_commerce_microservice.Prelude.{
  ℕ, suc, ◌≡◌, ◌≢◌, refl, true, Option, none, some, String, List, [], ◌∷◌, All, inl, inr, ==_iff,
}
use go_commerce_microservice.Error.{Error}
use go_commerce_microservice.Json.{Body}
use go_commerce_microservice.Sql.{Fault, Result, ok, err}
use go_commerce_microservice.Sql.Rows.{update_where}
use go_commerce_microservice.Outbox.{
  OutboxMessage, Outbox, find_unprocessed, mark_as_processed, increment_retry, has_id, mark,
  bump_retry,
}
use go_commerce_microservice.Messaging.Worker.{
  Publish, Turn, after_publish, publish_one, publish_all, after_find, process,
}
use go_commerce_microservice.Messaging.Worker.Rows.{
  Agrees, IsKeyed, All-map, All-oldest, All-update_where, All-zip, agree_after, Agrees-bump,
  Agrees-mark, bump-cases, found_is, mark-cases,
}

-- A publisher whose calls that return nil have delivered the event, and whose later calls undo no
-- delivery.
pub record IsReliable {L : Type 0} (Delivered : String → Body → L → Type 0) (publish : Publish L)
    : Type 0 where
  pub delivers :
      (event_type : String) (payload : Body) (l : L)
      → (publish event_type payload l).0 ≡ none
      → Delivered event_type payload (publish event_type payload l).1
  pub keeps :
      (event_type : String) (payload : Body) (l : L) (other : String) (body : Body)
      → Delivered other body l
      → Delivered other body (publish event_type payload l).1

module _ {L : Type 0} (Delivered : String → Body → L → Type 0) where
  -- A row that is marked has been delivered.
  abbrev IsHonest : L → OutboxMessage → Type 0
  IsHonest l r = r.processed_at ≢ none → Delivered r.event_type r.payload l

  abbrev pub AreHonest : Outbox × L → Type 0
  AreHonest s = All (IsHonest s.1) s.0

module _ {L : Type 0} (Delivered : String → Body → L → Type 0) where
  marked_row :
      (now : ℕ) (m : OutboxMessage) (l : L)
      → Delivered m.event_type m.payload l
      → (r : OutboxMessage) → has_id m.id r ≡ true
      → Agrees m r × IsHonest Delivered l r
      → IsHonest Delivered l (mark now r)
  unfolding mark
  marked_row now m l d r e (a, p) =
      let (same_type, same_payload) = a ((==_iff r.id m.id).0 e) in
      λ set. rw (same_type, same_payload) d

  IsHonest-mark :
      (now : ℕ) (m : OutboxMessage) (l : L) (table : Outbox)
      → Delivered m.event_type m.payload l
      → All (Agrees m) table
      → All (IsHonest Delivered l) table
      → All (IsHonest Delivered l) (update_where (has_id m.id) (mark now) table)
  IsHonest-mark now m l table d agree h =
      All-update_where (λ r. Agrees m r × IsHonest Delivered l r) (IsHonest Delivered l)
        (has_id m.id) (mark now) (marked_row now m l d) (λ r e p. p.1) table
        (All-zip (Agrees m) (IsHonest Delivered l) table agree h)

  bumped_row :
      (l : L) (r : OutboxMessage) → IsHonest Delivered l r → IsHonest Delivered l (bump_retry r)
  unfolding bump_retry
  bumped_row l r p = p

  IsHonest-bump :
      (id : ℕ) (l : L) (table : Outbox)
      → All (IsHonest Delivered l) table
      → All (IsHonest Delivered l) (update_where (has_id id) bump_retry table)
  IsHonest-bump id l table h =
      All-update_where (IsHonest Delivered l) (IsHonest Delivered l) (has_id id) bump_retry
        (λ r e p. bumped_row l r p) (λ r e p. p) table h

  -- What the loop keeps: marked rows are delivered, and the messages still to come agree.
  record IsOnTrack (ms : List OutboxMessage) (s : Outbox × L) : Type 0 where
    honest : AreHonest Delivered s
    agree : All (λ m. All (Agrees m) s.0) ms

  later-IsHonest :
      (publish : Publish L) (event_type : String) (payload : Body) (l : L) (table : Outbox)
      → IsReliable Delivered publish
      → All (IsHonest Delivered l) table
      → All (IsHonest Delivered (publish event_type payload l).1) table
  later-IsHonest publish event_type payload l table reliable h =
      All-map (IsHonest Delivered l) (IsHonest Delivered (publish event_type payload l).1)
        (λ r p set. reliable.keeps event_type payload l r.event_type r.payload (p set)) table h

  All-agree_after :
      (f : OutboxMessage → OutboxMessage) (id : ℕ) (ms : List OutboxMessage) (table : Outbox)
      → ((m r : OutboxMessage) → Agrees m r → Agrees m (f r))
      → All (λ m. All (Agrees m) table) ms
      → All (λ m. All (Agrees m) (update_where (has_id id) f table)) ms
  All-agree_after f id ms table keeps h =
      All-map (λ m. All (Agrees m) table) (λ m. All (Agrees m) (update_where (has_id id) f table))
        (λ m a. agree_after f id m table (keeps m) a) ms h

  marked-IsOnTrack :
      (fault : Fault) (now : ℕ) (m : OutboxMessage) (ms : List OutboxMessage) (table : Outbox)
      (l : L)
      → Delivered m.event_type m.payload l
      → All (IsHonest Delivered l) table
      → All (λ n. All (Agrees n) table) (m ∷ ms)
      → IsOnTrack ms ((mark_as_processed fault now m.id table).1, l)
  marked-IsOnTrack fault now m ms table l d h (a, rest) = elim (mark-cases fault now m.id table) [
    | inl e ↦ record { honest = rw e h; agree = rw e rest }
    | inr e ↦ record {
      honest = rw e (IsHonest-mark now m l table d a h);
      agree = rw e (All-agree_after (mark now) m.id ms table (Agrees-mark now) rest);
    }
  ]

  bumped-IsOnTrack :
      (fault : Fault) (id : ℕ) (ms : List OutboxMessage) (table : Outbox) (l : L)
      → All (IsHonest Delivered l) table
      → All (λ n. All (Agrees n) table) ms
      → IsOnTrack ms ((increment_retry fault id table).1, l)
  bumped-IsOnTrack fault id ms table l h rest = elim (bump-cases fault id table) [
    | inl e ↦ record { honest = rw e h; agree = rw e rest }
    | inr e ↦ record {
      honest = rw e (IsHonest-bump id l table h);
      agree = rw e (All-agree_after bump_retry id ms table Agrees-bump rest);
    }
  ]

  after_publish-IsOnTrack :
      (turn : Turn L) (m : OutboxMessage) (ms : List OutboxMessage) (table : Outbox)
      (reply : Option Error) (l : L)
      → (reply ≡ none → Delivered m.event_type m.payload l)
      → IsOnTrack (m ∷ ms) (table, l)
      → IsOnTrack ms (after_publish turn m table (reply, l))
  unfolding after_publish
  after_publish-IsOnTrack turn m ms table none l d track =
      marked-IsOnTrack turn.mark_fault turn.now m ms table l (d refl) track.honest track.agree
  after_publish-IsOnTrack turn m ms table (some e) l d track =
      bumped-IsOnTrack turn.bump_fault m.id ms table l track.honest track.agree.1

  publish_one-IsOnTrack :
      (turn : Turn L) (m : OutboxMessage) (ms : List OutboxMessage) (table : Outbox) (l : L)
      → IsReliable Delivered turn.publish
      → IsOnTrack (m ∷ ms) (table, l)
      → IsOnTrack ms (publish_one turn m (table, l))
  unfolding publish_one
  publish_one-IsOnTrack turn m ms table l reliable track =
      let (reply, l') = turn.publish m.event_type m.payload l in
      after_publish-IsOnTrack turn m ms table reply l' (reliable.delivers m.event_type m.payload l)
        (record {
          honest = later-IsHonest turn.publish m.event_type m.payload l table reliable track.honest;
          agree = track.agree;
        })

  publish_all-AreHonest :
      (turns : ℕ → Turn L) (i : ℕ) (ms : List OutboxMessage) (s : Outbox × L)
      → ((j : ℕ) → IsReliable Delivered (turns j).publish)
      → IsOnTrack ms s
      → AreHonest Delivered (publish_all turns i ms s)
  unfolding publish_all
  publish_all-AreHonest turns i [] s reliable track = track.honest
  publish_all-AreHonest turns i (m ∷ ms) (table, l) reliable track =
      publish_all-AreHonest turns (suc i) ms (publish_one (turns i) m (table, l)) reliable
        (publish_one-IsOnTrack (turns i) m ms table l (reliable i) track)

after_find-AreHonest :
    {L : Type 0} (Delivered : String → Body → L → Type 0) (turns : ℕ → Turn L)
    (found : Result Outbox) (s : Outbox × L)
    → ((i : ℕ) → IsReliable Delivered (turns i).publish)
    → AreHonest Delivered s
    → ((ms : Outbox) → found ≡ ok ms → All (λ m. All (Agrees m) s.0) ms)
    → AreHonest Delivered (after_find turns found s)
unfolding after_find
after_find-AreHonest Delivered turns (err e) s reliable h agree = h
after_find-AreHonest Delivered turns (ok ms) s reliable h agree =
    publish_all-AreHonest Delivered turns 0 ms s reliable
      (record { honest = h; agree = agree ms refl })

-- In an outbox whose rows of one id hold one event, whatever the broker and the database do to
-- the messages of a tick, each tick of the worker keeps this: every row that is marked as processed
-- has been delivered, where the publisher's calls that return nil deliver and undo no delivery.
pub marked_only_if_delivered :
    {L : Type 0} (Delivered : String → Body → L → Type 0) (find_fault : Fault) (batch_size : ℕ)
    (turns : ℕ → Turn L) (s : Outbox × L)
    → ((i : ℕ) → IsReliable Delivered (turns i).publish)
    → IsKeyed s.0
    → AreHonest Delivered s
    → AreHonest Delivered (process find_fault batch_size turns s)
unfolding process
marked_only_if_delivered Delivered find_fault batch_size turns (table, l) reliable keyed h =
    after_find-AreHonest Delivered turns (find_unprocessed find_fault batch_size table).0 (table, l)
      reliable h
      (λ ms found.
        rw (found_is find_fault batch_size table ms found)
          (All-oldest (λ m. All (Agrees m) table) batch_size table keyed))
