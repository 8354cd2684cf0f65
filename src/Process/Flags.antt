-- ===== src/Process/Flags.antt =====
-- What the hooks of the order service keep of the readiness, and what a failure keeps.
use go_commerce_microservice.Prelude.{
  ◌≡◌, refl, sym, ◌∙◌, true, List, [], ◌∷◌, arith, none, some, Option,
}
use go_commerce_microservice.Error.{Error}
use go_commerce_microservice.Sql.{err}
use go_commerce_microservice.Process.{
  Hook, Host, Env, start_outbox_worker, start_consumers, start_grpc_server, start_health_server,
  start_readiness, set_ready, on_start, on_stop, request_shutdown, Failing, crash,
}
use go_commerce_microservice.Process.Parts.{is_covered, all_covered, earlier, IsFlagged}

grpc-ready : (o : Option Error) (h : Host) → (start_grpc_server o h).1.ready ≡ h.ready
unfolding start_grpc_server
grpc-ready none h = refl
grpc-ready (some e) h = refl

health-ready : (o : Option Error) (h : Host) → (start_health_server o h).1.ready ≡ h.ready
unfolding start_health_server
health-ready none h = refl
health-ready (some e) h = refl

pub start-IsFlagged :
    (env : Env) (k : Hook) (h : Host)
    → IsFlagged (earlier k) h
    → IsFlagged (k ∷ earlier k) (on_start env k h).1
unfolding on_start start_outbox_worker start_consumers start_readiness
start-IsFlagged env Hook.outbox_worker h flagged set = flagged set
start-IsFlagged env Hook.consumers h flagged set = flagged set
start-IsFlagged env Hook.grpc_server h flagged set =
    flagged (sym (grpc-ready env.grpc_listen h) ∙ set)
start-IsFlagged env Hook.health_server h flagged set =
    flagged (sym (health-ready env.health_listen h) ∙ set)
start-IsFlagged env Hook.readiness h flagged set = refl

-- A hook that fails to start leaves the host as it was.
pub failed_start :
    (env : Env) (k : Hook) (h : Host) (e : Error)
    → (on_start env k h).0 ≡ err e
    → (on_start env k h).1 ≡ h
unfolding on_start start_outbox_worker start_consumers start_grpc_server start_health_server
    start_readiness
failed_start env Hook.outbox_worker h e bad = absurd (ground arith)
failed_start env Hook.consumers h e bad = absurd (ground arith)
failed_start env Hook.grpc_server h e bad = ground arith
failed_start env Hook.health_server h e bad = ground arith
failed_start env Hook.readiness h e bad = absurd (ground arith)

asked-covered : (j : Hook) (h : Host) → h.shutdown_asked ≡ true → is_covered j h ≡ true
asked-covered Hook.outbox_worker h asked = ground arith
asked-covered Hook.consumers h asked = ground arith
asked-covered Hook.grpc_server h asked = ground arith
asked-covered Hook.health_server h asked = ground arith
asked-covered Hook.readiness h asked = refl

crash-asked :
    (f : Failing) (h : Host) → ((crash f h).shutdown_asked ≡ true) × ((crash f h).ready ≡ h.ready)
unfolding crash request_shutdown
crash-asked Failing.failing_consumers h = (refl, refl)
crash-asked Failing.failing_grpc h = (refl, refl)
crash-asked Failing.failing_health h = (refl, refl)

pub crash-all_covered :
    (f : Failing) (ks : List Hook) (h : Host) → all_covered ks (crash f h) ≡ true
crash-all_covered f [] h = refl
crash-all_covered f (j ∷ ks) h =
    rw (asked-covered j (crash f h) (crash-asked f h).0) (crash-all_covered f ks h)

pub crash-IsFlagged :
    (f : Failing) (ks : List Hook) (h : Host) → IsFlagged ks h → IsFlagged ks (crash f h)
crash-IsFlagged f ks h flagged set = flagged (sym (crash-asked f h).1 ∙ set)

-- Stopping a hook leaves the parts of the earlier ones.
pub stop-covered :
    (env : Env) (k : Hook) (h : Host)
    → all_covered (earlier k) h ≡ true
    → all_covered (earlier k) (on_stop env k h).1 ≡ true
unfolding on_stop set_ready
stop-covered env Hook.outbox_worker h c = c
stop-covered env Hook.consumers h c = c
stop-covered env Hook.grpc_server h c = c
stop-covered env Hook.health_server h c = c
stop-covered env Hook.readiness h c = c

pub stop-IsFlagged :
    (env : Env) (k : Hook) (h : Host)
    → IsFlagged (k ∷ earlier k) h
    → IsFlagged (earlier k) (on_stop env k h).1
unfolding on_stop set_ready
stop-IsFlagged env Hook.outbox_worker h flagged set = flagged set
stop-IsFlagged env Hook.consumers h flagged set = flagged set
stop-IsFlagged env Hook.grpc_server h flagged set = flagged set
stop-IsFlagged env Hook.health_server h flagged set = flagged set
stop-IsFlagged env Hook.readiness h flagged set = set
