-- ===== src/Process.antt =====
-- services/order-service/internal/app/module.go: the hooks that start and stop the order service's
-- parts, and internal/health/handler.go. The hooks that only close connections, channels and the
-- logger are not among them; fx appends each before the first hook here that needs what it closes.
pub mod Parts
pub mod Flags
pub mod Ready
use Prim.Native.String.{String, ◌++◌ as concat}
use go_commerce_microservice.Prelude.{
  ℕ, Bool, true, false, ◌||◌, Option, none, some, List, [], ◌∷◌, ◌≡◌,
}
use go_commerce_microservice.Error.{Error}
use go_commerce_microservice.Sql.{Result, ok, err, Call}

-- The hooks of `Module`, each with what it starts.
pub data Hook : Type 0 where
  outbox_worker consumers grpc_server health_server readiness : Hook

-- The order of `fx.Invoke`.
unfoldable pub hooks : List Hook
hooks =
    Hook.outbox_worker ∷ Hook.consumers ∷ Hook.grpc_server ∷ Hook.health_server ∷ Hook.readiness
    ∷ []

-- Which parts run, the flag of the health handler, and whether the shutdown was asked for.
pub record Host : Type 0 where
  pub worker_up : Bool
  pub consumers_up : Bool
  pub grpc_up : Bool
  pub health_up : Bool
  pub ready : Bool
  pub shutdown_asked : Bool

unfoldable pub down : Host
down = record {
  worker_up = false;
  consumers_up = false;
  grpc_up = false;
  health_up = false;
  ready = false;
  shutdown_asked = false;
}

-- What the environment does: the errors of `net.Listen`, of the waits for the goroutines, and of
-- the health server's shutdown.
pub record Env : Type 0 where
  pub grpc_listen : Option Error
  pub health_listen : Option Error
  pub worker_wait : Option Error
  pub consumers_wait : Option Error
  pub health_shutdown : Option Error

abbrev pub outcome : Option Error → Result (Unit {0})
outcome none = ok tt
outcome (some e) = err e

-- `OnStart` of `StartOutboxWorker`
unfoldable pub start_outbox_worker : Call Host (Unit {0})
start_outbox_worker h = (ok tt, record h { worker_up = true })

-- `OnStart` of `StartConsumers`
unfoldable pub start_consumers : Call Host (Unit {0})
start_consumers h = (ok tt, record h { consumers_up = true })

-- `OnStart` of `StartGRPCServer`
unfoldable pub start_grpc_server : Option Error → Call Host (Unit {0})
start_grpc_server (some e) h = (err e, h)
start_grpc_server none h = (ok tt, record h { grpc_up = true })

-- `OnStart` of `StartHealthServer`
unfoldable pub start_health_server : Option Error → Call Host (Unit {0})
start_health_server (some e) h = (err e, h)
start_health_server none h = (ok tt, record h { health_up = true })

-- `SetReady`
unfoldable pub set_ready : Bool → Host → Host
set_ready ready h = record h { ready = ready }

-- `OnStart` of `ManageReadiness`
unfoldable pub start_readiness : Call Host (Unit {0})
unfolding set_ready
start_readiness h = (ok tt, set_ready true h)

-- `waitForDone`: the context may end before the goroutine does.
unfoldable pub wait_for_done : String → Option Error → Result (Unit {0})
wait_for_done component none = ok tt
wait_for_done component (some e) = err (Error.wrapped (concat "stop " component) e)

unfoldable pub on_start : Env → Hook → Call Host (Unit {0})
on_start env Hook.outbox_worker = start_outbox_worker
on_start env Hook.consumers = start_consumers
on_start env Hook.grpc_server = start_grpc_server env.grpc_listen
on_start env Hook.health_server = start_health_server env.health_listen
on_start env Hook.readiness = start_readiness

unfoldable pub on_stop : Env → Hook → Call Host (Unit {0})
unfolding wait_for_done set_ready
on_stop env Hook.outbox_worker h =
    (wait_for_done "outbox worker" env.worker_wait, record h { worker_up = false })
on_stop env Hook.consumers h =
    (wait_for_done "order consumers" env.consumers_wait, record h { consumers_up = false })
on_stop env Hook.grpc_server h = (ok tt, record h { grpc_up = false })
on_stop env Hook.health_server h = (outcome env.health_shutdown, record h { health_up = false })
on_stop env Hook.readiness h = (ok tt, set_ready false h)

-- `requestShutdown`, after a part has stopped by itself with an error.
unfoldable pub request_shutdown : Host → Host
request_shutdown h = record h { shutdown_asked = true }

-- The goroutines that may fail: the consumers, the gRPC server and the health server.
pub data Failing : Type 0 where
  failing_consumers failing_grpc failing_health : Failing

unfoldable pub crash : Failing → Host → Host
unfolding request_shutdown
crash Failing.failing_consumers h = request_shutdown (record h { consumers_up = false })
crash Failing.failing_grpc h = request_shutdown (record h { grpc_up = false })
crash Failing.failing_health h = request_shutdown (record h { health_up = false })

-- `Readiness`, as its HTTP status.
unfoldable pub readiness_status : Host → ℕ
readiness_status h = elim h.ready [ true ↦ 200 | false ↦ 503 ]

-- How fx runs the hooks: it starts them in order up to the first error; it stops those that have
-- started, the last one first, whatever errors they return. Goroutines may fail at any time.
pub data Starting (env : Env) : List Hook → List Hook → Host → Type 0 where
  begin : Starting env hooks [] down
  next :
      {k : Hook} {pending started : List Hook} {h : Host}
      → Starting env (k ∷ pending) started h
      → (on_start env k h).0 ≡ ok tt
      → Starting env pending (k ∷ started) (on_start env k h).1
  fails :
      {pending started : List Hook} {h : Host} (f : Failing)
      → Starting env pending started h
      → Starting env pending started (crash f h)

pub data Stopping (env : Env) : List Hook → Host → Type 0 where
  asked :
      {pending started : List Hook} {h : Host}
      → Starting env pending started h
      → Stopping env started h
  broken :
      {k : Hook} {pending started : List Hook} {h : Host} (e : Error)
      → Starting env (k ∷ pending) started h
      → (on_start env k h).0 ≡ err e
      → Stopping env started (on_start env k h).1
  next :
      {k : Hook} {rest : List Hook} {h : Host}
      → Stopping env (k ∷ rest) h
      → Stopping env rest (on_stop env k h).1
  fails :
      {started : List Hook} {h : Host} (f : Failing)
      → Stopping env started h
      → Stopping env started (crash f h)
