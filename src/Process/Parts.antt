-- ===== src/Process/Parts.antt =====
-- What the hooks of the order service keep of the parts that run.
use go_commerce_microservice.Prelude.{
  ◌≡◌, refl, sym, Bool, true, false, ◌&&◌, ◌||◌, List, [], ◌∷◌, arith, none, some, Option,
}
use mathlib.Core.Path.{subst}
use go_commerce_microservice.Error.{Error}
use go_commerce_microservice.Sql.{ok}
use go_commerce_microservice.Process.{
  Hook, Host, Env, start_outbox_worker, start_consumers, start_grpc_server, start_health_server,
  start_readiness, set_ready, on_start,
}

-- A part runs, or the shutdown was asked for.
abbrev pub is_covered : Hook → Host → Bool
is_covered Hook.outbox_worker h = h.worker_up || h.shutdown_asked
is_covered Hook.consumers h = h.consumers_up || h.shutdown_asked
is_covered Hook.grpc_server h = h.grpc_up || h.shutdown_asked
is_covered Hook.health_server h = h.health_up || h.shutdown_asked
is_covered Hook.readiness h = true

abbrev pub all_covered : List Hook → Host → Bool
all_covered [] h = true
all_covered (k ∷ ks) h = is_covered k h && all_covered ks h

-- The hooks that start before one, the last one first, and those after it.
abbrev pub earlier : Hook → List Hook
earlier Hook.outbox_worker = []
earlier Hook.consumers = Hook.outbox_worker ∷ []
earlier Hook.grpc_server = Hook.consumers ∷ Hook.outbox_worker ∷ []
earlier Hook.health_server = Hook.grpc_server ∷ Hook.consumers ∷ Hook.outbox_worker ∷ []
earlier Hook.readiness =
    Hook.health_server ∷ Hook.grpc_server ∷ Hook.consumers ∷ Hook.outbox_worker ∷ []

abbrev pub later : Hook → List Hook
later Hook.outbox_worker =
    Hook.consumers ∷ Hook.grpc_server ∷ Hook.health_server ∷ Hook.readiness ∷ []
later Hook.consumers = Hook.grpc_server ∷ Hook.health_server ∷ Hook.readiness ∷ []
later Hook.grpc_server = Hook.health_server ∷ Hook.readiness ∷ []
later Hook.health_server = Hook.readiness ∷ []
later Hook.readiness = []

-- What has started are the first hooks, in order.
abbrev pub IsChain : List Hook → Type 0
IsChain [] = Unit {0}
IsChain (k ∷ rest) = rest ≡ earlier k

abbrev pub Fits : List Hook → List Hook → Type 0
Fits [] started = started ≡ Hook.readiness ∷ earlier Hook.readiness
Fits (k ∷ pending) started = (started ≡ earlier k) × (pending ≡ later k)

pub next-Fits : (k : Hook) → Fits (later k) (k ∷ earlier k)
next-Fits Hook.outbox_worker = (refl, refl)
next-Fits Hook.consumers = (refl, refl)
next-Fits Hook.grpc_server = (refl, refl)
next-Fits Hook.health_server = (refl, refl)
next-Fits Hook.readiness = refl

pub earlier-IsChain : (k : Hook) → IsChain (earlier k)
earlier-IsChain Hook.outbox_worker = tt
earlier-IsChain Hook.consumers = refl
earlier-IsChain Hook.grpc_server = refl
earlier-IsChain Hook.health_server = refl
earlier-IsChain Hook.readiness = refl

Fits-IsChain : (pending started : List Hook) → Fits pending started → IsChain started
Fits-IsChain [] started all = subst IsChain (sym all) refl
Fits-IsChain (k ∷ pending) started (here, rest) = subst IsChain (sym here) (earlier-IsChain k)

-- The flag is set only while the last hook has started.
abbrev is_last : List Hook → Bool
is_last [] = false
is_last (Hook.readiness ∷ rest) = true
is_last (_ ∷ rest) = false

abbrev pub IsFlagged : List Hook → Host → Type 0
IsFlagged started h = h.ready ≡ true → is_last started ≡ true

pub kept-covered :
    (g : Host → Host) (h : Host) (ks : List Hook)
    → ((j : Hook) → is_covered j h ≡ true → is_covered j (g h) ≡ true)
    → all_covered ks h ≡ true
    → all_covered ks (g h) ≡ true
kept-covered g h [] k c = refl
kept-covered g h (j ∷ ks) k c = rw (k j (ground arith)) (kept-covered g h ks k (ground arith))

grpc-covered :
    (o : Option Error) (j : Hook) (h : Host)
    → is_covered j h ≡ true
    → is_covered j (start_grpc_server o h).1 ≡ true
unfolding start_grpc_server
grpc-covered (some e) j h c = c
grpc-covered none Hook.outbox_worker h c = c
grpc-covered none Hook.consumers h c = c
grpc-covered none Hook.grpc_server h c = refl
grpc-covered none Hook.health_server h c = c
grpc-covered none Hook.readiness h c = c

health-covered :
    (o : Option Error) (j : Hook) (h : Host)
    → is_covered j h ≡ true
    → is_covered j (start_health_server o h).1 ≡ true
unfolding start_health_server
health-covered (some e) j h c = c
health-covered none Hook.outbox_worker h c = c
health-covered none Hook.consumers h c = c
health-covered none Hook.grpc_server h c = c
health-covered none Hook.health_server h c = refl
health-covered none Hook.readiness h c = c

pub start-covered :
    (env : Env) (k j : Hook) (h : Host)
    → is_covered j h ≡ true
    → is_covered j (on_start env k h).1 ≡ true
unfolding on_start start_outbox_worker start_consumers start_readiness set_ready
start-covered env Hook.outbox_worker Hook.outbox_worker h c = refl
start-covered env Hook.outbox_worker Hook.consumers h c = c
start-covered env Hook.outbox_worker Hook.grpc_server h c = c
start-covered env Hook.outbox_worker Hook.health_server h c = c
start-covered env Hook.outbox_worker Hook.readiness h c = c
start-covered env Hook.consumers Hook.outbox_worker h c = c
start-covered env Hook.consumers Hook.consumers h c = refl
start-covered env Hook.consumers Hook.grpc_server h c = c
start-covered env Hook.consumers Hook.health_server h c = c
start-covered env Hook.consumers Hook.readiness h c = c
start-covered env Hook.grpc_server j h c = grpc-covered env.grpc_listen j h c
start-covered env Hook.health_server j h c = health-covered env.health_listen j h c
start-covered env Hook.readiness Hook.outbox_worker h c = c
start-covered env Hook.readiness Hook.consumers h c = c
start-covered env Hook.readiness Hook.grpc_server h c = c
start-covered env Hook.readiness Hook.health_server h c = c
start-covered env Hook.readiness Hook.readiness h c = refl

-- A hook that starts without an error has its part running.
pub started-covered :
    (env : Env) (k : Hook) (h : Host)
    → (on_start env k h).0 ≡ ok tt
    → is_covered k (on_start env k h).1 ≡ true
unfolding on_start start_outbox_worker start_consumers start_grpc_server start_health_server
    start_readiness
started-covered env Hook.outbox_worker h ran = refl
started-covered env Hook.consumers h ran = refl
started-covered env Hook.grpc_server h ran = ground arith
started-covered env Hook.health_server h ran = ground arith
started-covered env Hook.readiness h ran = refl
