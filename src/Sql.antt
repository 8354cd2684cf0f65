-- ===== src/Sql.antt =====
-- What the services use of gorm and of a SQL database: statements that may fail, transactions that
-- roll back, and tables as lists of rows in insertion order.
--
-- The database is not part of the repository, so each statement takes a `Fault` that the
-- environment chooses: the statement runs, it is refused, or it runs and its reply is lost.
pub mod Rows
use go_commerce_microservice.Prelude.{◌≡◌, refl, ap, ◌⊎◌, inl, inr, arith}
use go_commerce_microservice.Error.{Error}

pub data Result (A : Type 0) : Type 0 where
  ok : A → Result A
  err : Error → Result A

pub data Fault : Type 0 where
  fine : Fault
  refused : Error → Fault
  lost : Error → Fault

-- A database call over the tables `S`.
abbrev pub Call : Type 0 → Type 0 → Type 0
Call S A = S → Result A × S

module _ {S A : Type 0} where
  abbrev pub pure : A → Call S A
  pure a s = (ok a, s)

  abbrev pub raise : Error → Call S A
  raise e s = (err e, s)

  -- One round trip to the database.
  unfoldable pub statement : Fault → Call S A → Call S A
  statement fine run s = run s
  statement (refused e) run s = (err e, s)
  statement (lost e) run s = (err e, (run s).1)

infixl 5 ◌>>=◌ ◌>>◌
abbrev pub ◌>>=◌ : {S A B : Type 0} → Call S A → (A → Call S B) → Call S B
◌>>=◌ m f s = let (r, s') = m s in elim r [ ok a ↦ f a s' | err e ↦ (err e, s') ]

abbrev pub ◌>>◌ : {S B : Type 0} → Call S (Unit {0}) → Call S B → Call S B
m >> k = m >>= λ _. k

module _ {S A : Type 0} where
  -- `db.Transaction(body)`: an error of the body rolls back; a commit is one more round trip.
  commit_or_roll_back : Fault → S → Result A → S → Result A × S
  unfolding statement
  commit_or_roll_back commit before (ok a) after = statement commit (λ _. (ok a, after)) before
  commit_or_roll_back commit before (err e) after = (err e, before)

  unfoldable pub transaction : Fault → Call S A → Call S A
  unfolding commit_or_roll_back
  transaction commit body s = let (r, s') = body s in commit_or_roll_back commit s r s'

  -- A transaction that returns a value is the whole body's run; one that fails has changed
  -- nothing, with the body's error or a refused commit's, or has committed the whole body's run,
  -- when the reply to the commit is lost.
  pub data Atomic (commit : Fault) (body : Call S A) (s : S) : Result A × S → Type 0 where
    committed : {a : A} → (body s).0 ≡ ok a → Atomic commit body s (ok a, (body s).1)
    undone :
        {e : Error} → ((body s).0 ≡ err e) ⊎ (commit ≡ refused e) → Atomic commit body s (err e, s)
    in_doubt :
        {e : Error} {a : A}
        → commit ≡ lost e
        → (body s).0 ≡ ok a
        → Atomic commit body s (err e, (body s).1)

commit_or_roll_back-Atomic :
    {S A : Type 0} (commit : Fault) (body : Call S A) (s : S) (r : Result A)
    → (body s).0 ≡ r
    → Atomic commit body s (commit_or_roll_back commit s r (body s).1)
unfolding commit_or_roll_back
commit_or_roll_back-Atomic fine body s (ok a) h = Atomic.committed h
commit_or_roll_back-Atomic (refused e) body s (ok a) h = Atomic.undone (inr refl)
commit_or_roll_back-Atomic (lost e) body s (ok a) h = Atomic.in_doubt refl h
commit_or_roll_back-Atomic _ body s (err e) h = Atomic.undone (inl h)

pub transaction-Atomic :
    {S A : Type 0} (commit : Fault) (body : Call S A) (s : S)
    → Atomic commit body s (transaction commit body s)
unfolding transaction
transaction-Atomic commit body s = commit_or_roll_back-Atomic commit body s (body s).0 refl

commit_lost :
    {S A : Type 0} (e : Error) (before after : S) (r : Result A) (a : A)
    → r ≡ ok a
    → commit_or_roll_back (lost e) before r after ≡ (err e, after)
unfolding commit_or_roll_back statement
commit_lost e before after r a h = rw h refl

-- A commit whose reply is lost fails, with everything done.
pub transaction_lost :
    {S A : Type 0} (e : Error) (body : Call S A) (s : S) (a : A)
    → (body s).0 ≡ ok a
    → transaction (lost e) body s ≡ (err e, (body s).1)
unfolding transaction
transaction_lost e body s a h = commit_lost e s (body s).1 (body s).0 a h

-- A statement that returns a value has run.
pub statement-ok :
    {S A : Type 0} (f : Fault) (run : Call S A) (s : S) (a : A)
    → (statement f run s).0 ≡ ok a
    → statement f run s ≡ run s
unfolding statement
statement-ok fine run s a h = refl
statement-ok (refused e) run s a h = cc
statement-ok (lost e) run s a h = cc

pub Result-cases :
    {A : Type 0} (r : Result A) → ((a : A) × (r ≡ ok a)) ⊎ ((e : Error) × (r ≡ err e))
Result-cases (ok a) = inl (a, refl)
Result-cases (err e) = inr (e, refl)

-- A chain that returns a value has run its first call to a value, and then the rest.
pub bind-ok :
    {S A B : Type 0} (m : Call S A) (k : A → Call S B) (s : S) (b : B)
    → ((m >>= k) s).0 ≡ ok b
    → (a : A) × ((m s).0 ≡ ok a) × ((m >>= k) s ≡ k a (m s).1)
bind-ok m k s b h = elim (Result-cases (m s).0) [
  | inl (a, e) ↦ (a, e, ground arith)
  | inr (e, p) ↦ absurd (ground arith)
]

-- A chain of writes that succeeds has run its first statement and then the rest.
pub then-ok :
    {S : Type 0} (f : Fault) (run k : Call S (Unit {0})) (s : S)
    → ((statement f run >> k) s).0 ≡ ok tt
    → ((run s).0 ≡ ok tt) × ((statement f run >> k) s ≡ k (run s).1)
unfolding statement
then-ok fine run k s h = elim (Result-cases (run s).0) [
  | inl (a, e) ↦ (ground arith, ground arith)
  | inr (e, p) ↦ absurd (ground arith)
]
then-ok (refused e) run k s h = cc
then-ok (lost e) run k s h = cc

-- A chain whose first call is known.
pub bind_value :
    {S A B : Type 0} (m : Call S A) (k : A → Call S B) (s : S) {a : A} {t : S}
    → m s ≡ (ok a, t)
    → (m >>= k) s ≡ k a t
bind_value {S} {A} {B} m k s h = ap {B = Result B × S} (run_from k) h
  where
    run_from : (A → Call S B) → Result A × S → Result B × S
    run_from k out = elim out.0 [ ok a ↦ k a out.1 | err e ↦ (err e, out.1) ]

pub bind_error :
    {S A B : Type 0} (m : Call S A) (k : A → Call S B) (s : S) {e : Error} {t : S}
    → m s ≡ (err e, t)
    → (m >>= k) s ≡ (err e, t)
bind_error {S} {A} {B} m k s h = ap {B = Result B × S} (run_from k) h
  where
    run_from : (A → Call S B) → Result A × S → Result B × S
    run_from k out = elim out.0 [ ok a ↦ k a out.1 | err e ↦ (err e, out.1) ]
