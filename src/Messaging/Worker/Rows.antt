-- ===== src/Messaging/Worker/Rows.antt =====
-- Predicates on the rows of an outbox, and what the repository's calls keep of them.
use go_commerce_microservice.Prelude.{
  ℕ, zero, suc, ◌≡◌, refl, Bool, true, false, List, [], ◌∷◌, All, if◌then◌else◌, inl, inr, take,
  Bool-cases, leb, ◌⊎◌,
}
use go_commerce_microservice.Sql.{Fault, fine, refused, lost, ok, statement}
use go_commerce_microservice.Sql.Rows.{update_where, select_where}
use go_commerce_microservice.Outbox.{
  OutboxMessage, Outbox, find_unprocessed, mark_as_processed, increment_retry, oldest_unprocessed,
  order_by_time, insert_by_time, has_id, mark, bump_retry, is_unprocessed,
}

-- Rows of one id hold one event.
abbrev pub Agrees : OutboxMessage → OutboxMessage → Type 0
Agrees m r = r.id ≡ m.id → (r.event_type ≡ m.event_type) × (r.payload ≡ m.payload)

-- Every row agrees with every other: the primary key of the table.
abbrev pub IsKeyed : Outbox → Type 0
IsKeyed table = All (λ m. All (Agrees m) table) table

pub All-take : {A : Type 0} (P : A → Type 0) (n : ℕ) (xs : List A) → All P xs → All P (take n xs)
All-take P zero xs h = tt
All-take P (suc n) [] h = tt
All-take P (suc n) (x ∷ xs) (p, ps) = (p, All-take P n xs ps)

pub All-select_where :
    {A : Type 0} (P : A → Type 0) (q : A → Bool) (xs : List A)
    → All P xs
    → All P (select_where q xs)
unfolding select_where
All-select_where P q [] h = tt
All-select_where P q (x ∷ xs) (p, ps) =
    elim (q x) as (λ b. All P (if b then x ∷ select_where q xs else select_where q xs)) [
      | true ↦ (p, All-select_where P q xs ps)
      | false ↦ All-select_where P q xs ps
    ]

pub All-insert_by_time :
    (P : OutboxMessage → Type 0) (m : OutboxMessage) (ms : Outbox)
    → P m
    → All P ms
    → All P (insert_by_time m ms)
unfolding insert_by_time
All-insert_by_time P m [] p h = (p, tt)
All-insert_by_time P m (n ∷ ms) p (q, qs) =
    elim (leb m.created_at n.created_at)
      as (λ b. All P (if b then m ∷ n ∷ ms else n ∷ insert_by_time m ms)) [
        | true ↦ (p, (q, qs))
        | false ↦ (q, All-insert_by_time P m ms p qs)
      ]

pub All-order_by_time :
    (P : OutboxMessage → Type 0) (ms : Outbox) → All P ms → All P (order_by_time ms)
unfolding order_by_time
All-order_by_time P [] h = tt
All-order_by_time P (m ∷ ms) (p, ps) =
    All-insert_by_time P m (order_by_time ms) p (All-order_by_time P ms ps)

pub All-oldest :
    (P : OutboxMessage → Type 0) (n : ℕ) (ms : Outbox) → All P ms → All P (oldest_unprocessed n ms)
unfolding oldest_unprocessed
All-oldest P n ms h =
    All-take P n (order_by_time (select_where is_unprocessed ms)) (
      All-order_by_time P (select_where is_unprocessed ms) (All-select_where P is_unprocessed ms h))

pub All-map :
    {A : Type 0} (P Q : A → Type 0) (f : (x : A) → P x → Q x) (xs : List A) → All P xs → All Q xs
All-map P Q f [] h = tt
All-map P Q f (x ∷ xs) (p, ps) = (f x p, All-map P Q f xs ps)

pub All-update_where :
    {A : Type 0} (P Q : A → Type 0) (q : A → Bool) (f : A → A)
    (hit : (x : A) → q x ≡ true → P x → Q (f x)) (miss : (x : A) → q x ≡ false → P x → Q x)
    (xs : List A)
    → All P xs
    → All Q (update_where q f xs)
unfolding update_where
All-update_where P Q q f hit miss [] h = tt
All-update_where P Q q f hit miss (x ∷ xs) (p, ps) = elim (Bool-cases (q x)) [
  | inl e ↦ (rw e (hit x e p), All-update_where P Q q f hit miss xs ps)
  | inr e ↦ (rw e (miss x e p), All-update_where P Q q f hit miss xs ps)
]

-- The update of one statement is made, or it is not.
pub mark-cases :
    (fault : Fault) (now id : ℕ) (table : Outbox)
    → ((mark_as_processed fault now id table).1 ≡ table)
      ⊎ ((mark_as_processed fault now id table).1 ≡ update_where (has_id id) (mark now) table)
unfolding mark_as_processed statement
mark-cases fine now id table = inr refl
mark-cases (refused e) now id table = inl refl
mark-cases (lost e) now id table = inr refl

pub bump-cases :
    (fault : Fault) (id : ℕ) (table : Outbox)
    → ((increment_retry fault id table).1 ≡ table)
      ⊎ ((increment_retry fault id table).1 ≡ update_where (has_id id) bump_retry table)
unfolding increment_retry statement
bump-cases fine id table = inr refl
bump-cases (refused e) id table = inl refl
bump-cases (lost e) id table = inr refl

pub All-zip :
    {A : Type 0} (P Q : A → Type 0) (xs : List A) → All P xs → All Q xs → All (λ x. P x × Q x) xs
All-zip P Q [] h k = tt
All-zip P Q (x ∷ xs) (p, ps) (q, qs) = ((p, q), All-zip P Q xs ps qs)

pub Agrees-mark : (now : ℕ) (m r : OutboxMessage) → Agrees m r → Agrees m (mark now r)
unfolding mark
Agrees-mark now m r h = h

pub Agrees-bump : (m r : OutboxMessage) → Agrees m r → Agrees m (bump_retry r)
unfolding bump_retry
Agrees-bump m r h = h

pub agree_after :
    (f : OutboxMessage → OutboxMessage) (id : ℕ) (m : OutboxMessage) (table : Outbox)
    → ((r : OutboxMessage) → Agrees m r → Agrees m (f r))
    → All (Agrees m) table
    → All (Agrees m) (update_where (has_id id) f table)
agree_after f id m table keeps h =
    All-update_where (Agrees m) (Agrees m) (has_id id) f (λ r e a. keeps r a) (λ r e a. a) table h

pub found_is :
    (fault : Fault) (n : ℕ) (table ms : Outbox)
    → (find_unprocessed fault n table).0 ≡ ok ms
    → ms ≡ oldest_unprocessed n table
unfolding find_unprocessed statement
found_is fine n table ms h = cc
found_is (refused e) n table ms h = cc
found_is (lost e) n table ms h = cc
