-- ===== src/Tests/SagaRuns.antt =====
-- The theorems on both services at a run that confirms an order.
use go_commerce_microservice.Prelude.{refl, true, none, Option, List, [], ◌∷◌, All}
use go_commerce_microservice.Sql.{fine}
use go_commerce_microservice.Messaging.Delivery.{confirmed}
use go_commerce_microservice.Messaging.Publisher.{Link, waiting}
use go_commerce_microservice.Order.Domain.{OrderStatus}
use go_commerce_microservice.Order.Status.{status_of}
use go_commerce_microservice.Order.Consumer as OrderConsumer
use go_commerce_microservice.Inventory.Consumer as StockConsumer
use go_commerce_microservice.Saga.System.{System, Tick, Step, step, run}
use go_commerce_microservice.Saga.Steps.{IsFresh, HasInts}
use go_commerce_microservice.Saga.Outcomes.{HasStockFor, stock_follows_status}
use go_commerce_microservice.Saga.Phases.{Move, phase_of, step_refines}
use go_commerce_microservice.Tests.Data.{
  uuids, floats, rules, order_faults, order_draws, order_input, no_orders, stock_faults,
  stock_draws, full_stock, properties, policy, wire,
}

abbrev silent_link : Link
silent_link = record { returns = waiting []; stored = [] }

abbrev start : System
start = record {
  orders = no_orders;
  order_link = silent_link;
  stock = full_stock;
  stock_link = silent_link;
}

abbrev tick : Tick
tick = record {
  find_fault = fine;
  batch_size = 10;
  replies = λ n. confirmed true;
  marks = λ n. fine;
  bumps = λ n. fine;
  clock = λ n. 20;
}

abbrev order_turn : OrderConsumer.Turn
order_turn = record { faults = order_faults; now = 21; inbox_id = 22; wire = wire }

abbrev stock_turn : StockConsumer.Turn
stock_turn = record { faults = stock_faults; draws = stock_draws; channel_open = true }

-- An order is placed and published, its stock is reserved, twice asked, and the answer published.
abbrev steps : List Step
steps =
    Step.place order_faults order_draws order_input
    ∷ Step.publish_orders tick
    ∷ Step.reserve stock_turn 0 none properties
    ∷ Step.reserve stock_turn 0 none properties
    ∷ Step.publish_stock tick
    ∷ []

abbrev last_step : Step
last_step = Step.confirm policy order_turn 0 none properties

start-IsFresh : IsFresh start
start-IsFresh = record {
  no_orders = refl;
  no_requests = refl;
  none_sent = refl;
  no_answers = refl;
  none_answered = refl;
  no_reservations = refl;
  keyed = (tt, tt);
}

steps-HasInts : All HasInts steps
unfolding HasInts
steps-HasInts = ((refl, tt), (tt, (tt, (tt, (tt, tt)))))

stock_follows_status_example :
    let t = run rules uuids floats "commerce" steps start in
    HasStockFor uuids (status_of 100 t.orders.orders) 100 t
stock_follows_status_example =
    stock_follows_status rules uuids floats "commerce" steps start 100 start-IsFresh steps-HasInts

step_refines_example :
    let t = run rules uuids floats "commerce" steps start in
    Move (phase_of 100 t) (phase_of 100 (step rules uuids floats "commerce" last_step t))
step_refines_example =
    step_refines rules uuids floats "commerce" steps last_step start 100 start-IsFresh steps-HasInts

abbrev after_confirm : System
after_confirm =
    step rules uuids floats "commerce" last_step (run rules uuids floats "commerce" steps start)

abbrev final_status : Option OrderStatus
final_status = status_of 100 after_confirm.orders.orders
