-- ===== src/Process/Ready.antt =====
-- When the order service says that it is ready.
use go_commerce_microservice.Prelude.{
  ◌≡◌, refl, sym, Bool, true, false, List, [], ◌∷◌, ◌⊎◌, inl, inr, arith, Bool-cases,
}
use mathlib.Core.Path.{subst}
use go_commerce_microservice.Sql.{ok}
use go_commerce_microservice.Process.{
  Hook, hooks, Host, down, Env, on_start, on_stop, Failing, crash, readiness_status, Starting,
  Stopping,
}
use go_commerce_microservice.Process.Parts.{
  is_covered, all_covered, earlier, later, IsChain, Fits, next-Fits, earlier-IsChain, IsFlagged,
  kept-covered, start-covered, started-covered,
}
use go_commerce_microservice.Process.Flags.{
  start-IsFlagged, failed_start, crash-all_covered, crash-IsFlagged, stop-covered, stop-IsFlagged,
}

record IsOrdered (started : List Hook) (h : Host) : Type 0 where
  chain : IsChain started
  covered : all_covered started h ≡ true
  flagged : IsFlagged started h

crash-IsOrdered :
    (f : Failing) (started : List Hook) (h : Host)
    → IsOrdered started h
    → IsOrdered started (crash f h)
crash-IsOrdered f started h o = record {
  chain = o.chain;
  covered = crash-all_covered f started h;
  flagged = crash-IsFlagged f started h o.flagged;
}

start-IsOrdered :
    (env : Env) (k : Hook) (started : List Hook) (h : Host)
    → started ≡ earlier k
    → (on_start env k h).0 ≡ ok tt
    → IsOrdered started h
    → IsOrdered (k ∷ started) (on_start env k h).1
start-IsOrdered env k started h here ran o = record {
  chain = here;
  covered = rw (started-covered env k h ran) (
      kept-covered (λ g. (on_start env k g).1) h started (λ j c. start-covered env k j h c)
        o.covered);
  flagged =
      subst (λ ks. IsFlagged (k ∷ ks) (on_start env k h).1) (sym here)
        (start-IsFlagged env k h (subst (λ ks. IsFlagged ks h) here o.flagged));
}

starting :
    (env : Env) (pending started : List Hook) (h : Host)
    → Starting env pending started h
    → Fits pending started × IsOrdered started h
unfolding hooks down
starting env pending started h Starting.begin =
    ((refl, refl), record { chain = tt; covered = refl; flagged = λ set. set })
starting env pending (k ∷ started) h (Starting.next {h = before} s ran) =
    let ((here, rest), o) = starting env (k ∷ pending) started before s in
    (
      subst (λ ks. Fits ks (k ∷ started)) (sym rest)
          (subst (λ ks. Fits (later k) (k ∷ ks)) (sym here) (next-Fits k)),
      start-IsOrdered env k started before here ran o,
    )
starting env pending started h (Starting.fails {h = before} f s) =
    let (fits, o) = starting env pending started before s in
    (fits, crash-IsOrdered f started before o)

stop-IsOrdered :
    (env : Env) (k : Hook) (rest : List Hook) (h : Host)
    → IsOrdered (k ∷ rest) h
    → IsOrdered rest (on_stop env k h).1
stop-IsOrdered env k rest h o = record {
  chain = subst IsChain (sym o.chain) (earlier-IsChain k);
  covered =
      subst (λ ks. all_covered ks (on_stop env k h).1 ≡ true) (sym o.chain)
        (stop-covered env k h
          (subst (λ ks. all_covered ks h ≡ true) o.chain (ground (arith, o.covered))));
  flagged =
      subst (λ ks. IsFlagged ks (on_stop env k h).1) (sym o.chain)
        (stop-IsFlagged env k h (subst (λ ks. IsFlagged (k ∷ ks) h) o.chain o.flagged));
}

stopping :
    (env : Env) (started : List Hook) (h : Host) → Stopping env started h → IsOrdered started h
stopping env started h (Stopping.asked {pending = pending} s) = (starting env pending started h s).1
stopping env started h (Stopping.broken {k = k} {pending = pending} {h = before} e s bad) =
    subst (IsOrdered started) (sym (failed_start env k before e bad))
      (starting env (k ∷ pending) started before s).1
stopping env started h (Stopping.next {k = k} {h = before} s) =
    stop-IsOrdered env k started before (stopping env (k ∷ started) before s)
stopping env started h (Stopping.fails {h = before} f s) =
    crash-IsOrdered f started before (stopping env started before s)

-- Every part runs, or the shutdown was asked for.
abbrev pub IsServing : Host → Type 0
IsServing h =
    (is_covered Hook.outbox_worker h ≡ true)
    × (is_covered Hook.consumers h ≡ true)
    × (is_covered Hook.grpc_server h ≡ true)
    × (is_covered Hook.health_server h ≡ true)

is_ready : (h : Host) → readiness_status h ≡ 200 → h.ready ≡ true
unfolding readiness_status
is_ready h up = elim (Bool-cases h.ready) [ inl set ↦ set | inr unset ↦ absurd (ground arith) ]

not_last : (flag : Bool) → flag ≡ false → ¬ (flag ≡ true)
not_last flag low high = ground arith

all-IsServing : (h : Host) → all_covered (earlier Hook.readiness) h ≡ true → IsServing h
all-IsServing h c = (ground arith, ground arith, ground arith, ground arith)

ordered-IsServing :
    (started : List Hook) (h : Host) → IsOrdered started h → readiness_status h ≡ 200 → IsServing h
ordered-IsServing [] h o up = absurd (not_last false refl (o.flagged (is_ready h up)))
ordered-IsServing (Hook.outbox_worker ∷ rest) h o up =
    absurd (not_last false refl (o.flagged (is_ready h up)))
ordered-IsServing (Hook.consumers ∷ rest) h o up =
    absurd (not_last false refl (o.flagged (is_ready h up)))
ordered-IsServing (Hook.grpc_server ∷ rest) h o up =
    absurd (not_last false refl (o.flagged (is_ready h up)))
ordered-IsServing (Hook.health_server ∷ rest) h o up =
    absurd (not_last false refl (o.flagged (is_ready h up)))
ordered-IsServing (Hook.readiness ∷ rest) h o up =
    all-IsServing h (subst (λ ks. all_covered ks h ≡ true) o.chain o.covered)

-- At any time while the order service starts, runs, stops or rolls a failed start back, with any
-- errors of its hooks and of its goroutines, a readiness of 200 means that the outbox worker, the
-- consumers, the gRPC server and the health server all run, or that the shutdown was asked for.
pub readiness-IsServing :
    (env : Env) (pending started : List Hook) (h : Host)
    → Starting env pending started h ⊎ Stopping env started h
    → readiness_status h ≡ 200
    → IsServing h
readiness-IsServing env pending started h (inl s) up =
    ordered-IsServing started h (starting env pending started h s).1 up
readiness-IsServing env pending started h (inr s) up =
    ordered-IsServing started h (stopping env started h s) up
