-- ===== src/Tests/Data.antt =====
-- Test data: readings of the parameters, an order, tables and deliveries.
use Prim.Native.String.{String}
use text.Mathlib.Text.{◌==◌ as str_eq}
use go_commerce_microservice.Prelude.{
  ℕ, zero, suc, ◌+◌, ◌*◌, ◌≡◌, ◌≢◌, ◌⊎◌, refl, Bool, true, not, ◌&&◌, ◌||◌, Option, none, some, [],
  ◌∷◌, ◌>>=◌, leb, ltb, ◌==◌, arith, eq_iff,
}
use go_commerce_microservice.Prelude.Int.{ℤ, pos, ◌≤ℤ◌, leb_ℤ, pos_part, neg_part}
use go_commerce_microservice.Error.{Error, Sentinel}
use go_commerce_microservice.External.{UuidText, FloatOps}
use go_commerce_microservice.Json.{malformed}
use go_commerce_microservice.Sql.{fine, lost}
use go_commerce_microservice.Outbox.{OutboxMessage}
use go_commerce_microservice.Order.Domain.{Order, OrderItems, OrderStatus}
use go_commerce_microservice.Order.Input.{Rules, CreateOrderItemInput, CreateOrderInput}
use go_commerce_microservice.Order.Schema.{OrderDb}
use go_commerce_microservice.Order.Repository as OrderRepo
use go_commerce_microservice.Order.Service as OrderService
use go_commerce_microservice.Inventory.Schema.{ReserveStockItem, InventoryDataModel, InventoryDb}
use go_commerce_microservice.Inventory.Repository as StockRepo
use go_commerce_microservice.Inventory.Answer.{Request}
use go_commerce_microservice.Messaging.Delivery.{confirmed, Properties, Delivery}
use go_commerce_microservice.Messaging.Retry.{RetryPolicy, Wire, new_retry_policy}

-- A UUID as so many strokes.
abbrev pub strokes : ℕ → String
strokes zero = String.[]
strokes (suc n) = String.◌∷◌ "|" (strokes n)

abbrev pub count : String → Option ℕ
count String.[] = some 0
count (String.◌∷◌ c s) = count s >>= λ n. some (suc n)

pub count-strokes : (n : ℕ) → count (strokes n) ≡ some n
count-strokes zero = refl
count-strokes (suc n) = rw (count-strokes n) refl

abbrev pub uuids : UuidText
uuids = record { parse = count; print = strokes; parse-print = count-strokes }

-- Whole, non-negative floats.
abbrev pub floats : FloatOps
floats = record {
  add = λ a b. a + b;
  mul = λ a b. a * b;
  of_int = pos_part;
  lt = ltb;
  finite = λ x. true;
}

abbrev pub is_zero : ℤ → Bool
is_zero z = pos_part z == 0 && neg_part z == 0

pub nonzero_int : (z : ℤ) → not (is_zero z) ≡ true → z ≢ pos 0
nonzero_int z h = ground arith

pub nonzero_length : (n : ℕ) → not (n == 0) ≡ true → n ≢ 0
nonzero_length n h = ground arith

pub nonempty_text : (s : String) → not (str_eq s "") ≡ true → s ≢ ""
nonempty_text s h = ground (arith, eq_iff s "")

pub at_least : (low z : ℤ) → (is_zero z || leb_ℤ low z) ≡ true → (z ≡ pos 0) ⊎ (low ≤ℤ z)
at_least low z h = ground arith

abbrev pub rules : Rules
rules = record {
  required_uuid = λ id. not (id == 0);
  required_text = λ s. not (str_eq s "");
  required_int = λ z. not (is_zero z);
  required_length = λ n. not (n == 0);
  length_at_least = λ low n. leb low n;
  min_float = leb;
  min_int = λ low z. is_zero z || leb_ℤ low z;
  failure = λ names. Error.message "invalid";
  required_int_nonzero = nonzero_int;
  required_length_nonzero = nonzero_length;
  required_text_nonempty = nonempty_text;
  min_int_bound = at_least;
}

abbrev pub order_faults : OrderRepo.Faults
order_faults = record {
  columns = record { numeric = λ x. true; varchar = λ s. true };
  create_order = fine;
  create_items = fine;
  create_outbox = fine;
  commit = fine;
  is_processed = fine;
  update_order = fine;
  save_processed = fine;
}

-- The update is made, but its reply is lost.
abbrev pub broken_off : OrderRepo.Faults
broken_off = record order_faults { update_order = lost (Error.sentinel Sentinel.connection_lost) }

abbrev pub order_draws : OrderService.Draws
order_draws = record {
  fresh = λ n. 100 + n;
  now = 7;
  event_id = 30;
  outbox_id = 31;
  outbox_time = 8;
}

abbrev pub item_input : CreateOrderItemInput
item_input = record { product_id = 5; product_name = "pen"; unit_price = 3; quantity = pos 2 }

abbrev pub order_input : CreateOrderInput
order_input = record { customer_id = 9; items = item_input ∷ [] }

abbrev pub unpriced : OrderItems
unpriced = record {
  id = 0;
  order_id = 0;
  product_id = 5;
  product_name = "pen";
  unit_price = 3;
  quantity = pos 2;
  subtotal = 0;
}

abbrev pub pen_order : Order
pen_order = record {
  id = 100;
  customer_id = 9;
  status = OrderStatus.pending;
  total_amount = 6;
  created_at = 7;
  updated_at = 7;
  items = record unpriced { id = 101; order_id = 100; subtotal = 6 } ∷ [];
}

abbrev pub no_orders : OrderDb
no_orders = record { orders = []; order_items = []; outbox = []; inbox = [] }

-- Order 100 waits for its stock.
abbrev pub one_order : OrderDb
one_order = record no_orders {
  orders =
      record {
        id = 100;
        customer_id = 9;
        status = OrderStatus.pending;
        total_amount = 6;
        created_at = 7;
        updated_at = 7;
      }
      ∷ [];
}

abbrev pub confirmed_order : OrderDb
confirmed_order = record no_orders {
  orders =
      record {
        id = 100;
        customer_id = 9;
        status = OrderStatus.confirmed;
        total_amount = 6;
        created_at = 7;
        updated_at = 8;
      }
      ∷ [];
}

abbrev pub event : OutboxMessage
event = record {
  id = 31;
  aggregate_id = 100;
  aggregate_type = "Order";
  event_type = "ReserveStockRequested";
  payload = malformed;
  retry_count = 0;
  created_at = 8;
  processed_at = none;
}

abbrev pub stock_faults : StockRepo.Faults
stock_faults = record {
  is_processed = fine;
  lock = λ n. fine;
  update = λ n. fine;
  reserve = λ n. fine;
  create_outbox = fine;
  create_inbox = fine;
  commit = fine;
}

abbrev pub stock_draws : StockRepo.Draws
stock_draws = record {
  reservation_id = λ n. 200 + n;
  event_id = 40;
  outbox_id = 41;
  inbox_id = 42;
  reserve_time = 10;
  outbox_time = 11;
  inbox_time = 12;
}

abbrev pub two_pens : ReserveStockItem
two_pens = record { product_id = 5; quantity = pos 2 }

abbrev pub request : Request
request = record {
  faults = stock_faults;
  draws = stock_draws;
  message_id = 30;
  order_id = 100;
  items = two_pens ∷ [];
  payload = malformed;
}

-- The same product on two lines.
abbrev pub repeated : Request
repeated = record request { items = two_pens ∷ two_pens ∷ [] }

abbrev pub pens : InventoryDataModel
pens = record {
  id = 1;
  product_id = 5;
  available_quantity = pos 8;
  reserved_quantity = pos 0;
  created_at = 1;
  updated_at = 1;
}

abbrev pub full_stock : InventoryDb
full_stock = record { inventory = pens ∷ []; reservations = []; outbox = []; inbox = [] }

abbrev pub properties : Properties
properties = record {
  content_type = "application/json";
  content_encoding = "";
  priority = 0;
  correlation_id = "";
  reply_to = "";
  message_id = "";
  timestamp = 0;
  type_name = "";
  app_id = "";
}

abbrev pub delivery : Delivery
delivery = record { headers = none; properties = properties; body = malformed }

abbrev pub policy : RetryPolicy
policy = new_retry_policy "commerce" "stock.reserved" "order.stock-reserved" (pos 3)

abbrev pub wire : Wire
wire = record { reply = confirmed true; ack_error = none; nack_error = none; now = "now" }
