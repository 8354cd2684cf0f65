-- ===== src/Saga/Events.antt =====
-- The event that an outbox holds of an aggregate, and what the worker's calls keep of it.
use go_commerce_microservice.Prelude.{
  ℕ, suc, ◌≡◌, refl, Bool, Option, none, some, List, [], ◌∷◌, ◌++◌, All, arith, ◌==◌, if◌then◌else◌,
  String, inl, inr, ◌∙◌, ap,
}
use go_commerce_microservice.Error.{Error}
use go_commerce_microservice.External.{Uuid}
use go_commerce_microservice.Json.{Body}
use go_commerce_microservice.Sql.{Fault, Result, ok, err}
use go_commerce_microservice.Sql.Rows.{update_where}
use go_commerce_microservice.Outbox.{OutboxMessage, Outbox, has_id, mark, bump_retry}
use go_commerce_microservice.Messaging.Worker.{
  Turn, after_publish, publish_one, publish_all, after_find, process,
}
use go_commerce_microservice.Messaging.Worker.Rows.{mark-cases, bump-cases, All-update_where}

abbrev pub Event : Type 0
Event = String × Body

-- The first row of an aggregate.
abbrev pub event_of : Uuid → Outbox → Option Event
event_of id [] = none
event_of id (m ∷ ms) =
    if m.aggregate_id == id then some (m.event_type, m.payload) else event_of id ms

-- Every row is the first of its aggregate, or says the same.
abbrev pub IsFirst : Outbox → OutboxMessage → Type 0
IsFirst table m = event_of m.aggregate_id table ≡ some (m.event_type, m.payload)

pub event_of-append :
    (id : Uuid) (table : Outbox) (m : OutboxMessage)
    → event_of id (table ++ m ∷ []) ≡ (elim (event_of id table) [
      | none ↦ if m.aggregate_id == id then some (m.event_type, m.payload) else none
      | some e ↦ some e
    ])
event_of-append id [] m = refl
event_of-append id (r ∷ table) m = ground (arith, event_of-append id table m)

-- An update that leaves the aggregate, the type and the payload.
abbrev Keeps : (OutboxMessage → OutboxMessage) → Type 0
Keeps f =
    (m : OutboxMessage)
    → ((f m).aggregate_id ≡ m.aggregate_id)
      × ((f m).event_type ≡ m.event_type)
      × ((f m).payload ≡ m.payload)

mark-Keeps : (now : ℕ) → Keeps (mark now)
unfolding mark
mark-Keeps now m = (refl, refl, refl)

bump_retry-Keeps : Keeps bump_retry
unfolding bump_retry
bump_retry-Keeps m = (refl, refl, refl)

event_of-update :
    (q : OutboxMessage → Bool) (f : OutboxMessage → OutboxMessage) (id : Uuid) (table : Outbox)
    → Keeps f
    → event_of id (update_where q f table) ≡ event_of id table
unfolding update_where
event_of-update q f id [] k = refl
event_of-update q f id (m ∷ table) k = ground (arith, k m, event_of-update q f id table k)

module _ {L : Type 0} where
  event_of-after_publish :
      (turn : Turn L) (m : OutboxMessage) (table : Outbox) (reply : Option Error) (l : L)
      (id : Uuid)
      → event_of id (after_publish turn m table (reply, l)).0 ≡ event_of id table
  unfolding after_publish
  event_of-after_publish turn m table none l id =
      elim (mark-cases turn.mark_fault turn.now m.id table) [
        | inl e ↦ ap (event_of id) e
        | inr e ↦
            ap (event_of id) e
            ∙ event_of-update (has_id m.id) (mark turn.now) id table (mark-Keeps turn.now)
      ]
  event_of-after_publish turn m table (some w) l id = elim (bump-cases turn.bump_fault m.id table) [
    | inl e ↦ ap (event_of id) e
    | inr e ↦
        ap (event_of id) e ∙ event_of-update (has_id m.id) bump_retry id table bump_retry-Keeps
  ]

  event_of-publish_all :
      (turns : ℕ → Turn L) (i : ℕ) (ms : List OutboxMessage) (s : Outbox × L) (id : Uuid)
      → event_of id (publish_all turns i ms s).0 ≡ event_of id s.0
  unfolding publish_all publish_one
  event_of-publish_all turns i [] s id = refl
  event_of-publish_all turns i (m ∷ ms) (table, l) id =
      let (reply, l') = (turns i).publish m.event_type m.payload l in
      event_of-publish_all turns (suc i) ms (after_publish (turns i) m table (reply, l')) id
      ∙ event_of-after_publish (turns i) m table reply l' id

  event_of-after_find :
      (turns : ℕ → Turn L) (found : Result Outbox) (s : Outbox × L) (id : Uuid)
      → event_of id (after_find turns found s).0 ≡ event_of id s.0
  unfolding after_find
  event_of-after_find turns (err e) s id = refl
  event_of-after_find turns (ok ms) s id = event_of-publish_all turns 0 ms s id

  -- A tick changes no event.
  pub event_of-process :
      (fault : Fault) (n : ℕ) (turns : ℕ → Turn L) (s : Outbox × L) (id : Uuid)
      → event_of id (process fault n turns s).0 ≡ event_of id s.0
  unfolding process
  event_of-process fault n turns (table, l) id = event_of-after_find turns _ (table, l) id

-- A predicate on what the rows hold, whatever their marks.
abbrev pub Each : (Uuid → String → Body → Type 0) → Outbox → Type 0
Each P table = All (λ m. P m.aggregate_id m.event_type m.payload) table

module _ (P : Uuid → String → Body → Type 0) where
  kept_row :
      (f : OutboxMessage → OutboxMessage) (m : OutboxMessage)
      → Keeps f
      → P m.aggregate_id m.event_type m.payload
      → P (f m).aggregate_id (f m).event_type (f m).payload
  kept_row f m k p = rw (k m).0 (rw (k m).1 (rw (k m).2 p))

  Each-update :
      (id : Uuid) (f : OutboxMessage → OutboxMessage) (table : Outbox)
      → Keeps f
      → Each P table
      → Each P (update_where (has_id id) f table)
  Each-update id f table k h =
      All-update_where (λ m. P m.aggregate_id m.event_type m.payload)
        (λ m. P m.aggregate_id m.event_type m.payload) (has_id id) f (λ m e p. kept_row f m k p)
        (λ m e p. p) table h

  module _ {L : Type 0} where
    Each-after_publish :
        (turn : Turn L) (m : OutboxMessage) (table : Outbox) (reply : Option Error) (l : L)
        → Each P table
        → Each P (after_publish turn m table (reply, l)).0
    unfolding after_publish
    Each-after_publish turn m table none l h =
        elim (mark-cases turn.mark_fault turn.now m.id table) [
          | inl e ↦ rw e h
          | inr e ↦ rw e (Each-update m.id (mark turn.now) table (mark-Keeps turn.now) h)
        ]
    Each-after_publish turn m table (some w) l h = elim (bump-cases turn.bump_fault m.id table) [
      | inl e ↦ rw e h
      | inr e ↦ rw e (Each-update m.id bump_retry table bump_retry-Keeps h)
    ]

    Each-publish_all :
        (turns : ℕ → Turn L) (i : ℕ) (ms : List OutboxMessage) (s : Outbox × L)
        → Each P s.0
        → Each P (publish_all turns i ms s).0
    unfolding publish_all publish_one
    Each-publish_all turns i [] s h = h
    Each-publish_all turns i (m ∷ ms) (table, l) h =
        let (reply, l') = (turns i).publish m.event_type m.payload l in
        Each-publish_all turns (suc i) ms (after_publish (turns i) m table (reply, l'))
          (Each-after_publish (turns i) m table reply l' h)

    Each-after_find :
        (turns : ℕ → Turn L) (found : Result Outbox) (s : Outbox × L)
        → Each P s.0
        → Each P (after_find turns found s).0
    unfolding after_find
    Each-after_find turns (err e) s h = h
    Each-after_find turns (ok ms) s h = Each-publish_all turns 0 ms s h

    pub Each-process :
        (fault : Fault) (n : ℕ) (turns : ℕ → Turn L) (s : Outbox × L)
        → Each P s.0
        → Each P (process fault n turns s).0
    unfolding process
    Each-process fault n turns (table, l) h = Each-after_find turns _ (table, l) h
