-- ===== src/Config/Nested.antt =====
-- The gateway's timeouts.
use go_commerce_microservice.Prelude.{◌≡◌, ◌≢◌, false, none, arith}
use go_commerce_microservice.Prelude.Int.{ℤ, pos, leb_ℤ, ◌≤ℤ◌}
use go_commerce_microservice.Config.Checks.{or_else-none, require_all-none, positive_all-none}
use go_commerce_microservice.Config.Apps.{
  GatewayOptions, gateway_required, gateway_positive, timeouts_nested, validate_gateway_options,
}
use go_commerce_microservice.Config.{require_all, positive_all, ◌or_else◌}

infix 20 ◌longer_than◌
-- One duration is longer than another.
abbrev pub ◌longer_than◌ : ℤ → ℤ → Type 0
a longer_than b = leb_ℤ a b ≡ false

pub record IsNested (o : GatewayOptions) : Type 0 where
  pub read_positive : pos 1 ≤ℤ o.grpc_read_timeout
  pub write_positive : pos 1 ≤ℤ o.grpc_write_timeout
  pub read_inside : o.request_timeout longer_than o.grpc_read_timeout
  pub write_inside : o.request_timeout longer_than o.grpc_write_timeout
  pub request_inside : o.write_timeout longer_than o.request_timeout
  pub ports : (o.app_port ≢ "") × (o.management_port ≢ "")

timeouts_nested-none :
    (o : GatewayOptions)
    → timeouts_nested o ≡ none
    → (o.write_timeout longer_than o.request_timeout)
      × (o.request_timeout longer_than o.grpc_read_timeout)
      × (o.request_timeout longer_than o.grpc_write_timeout)
unfolding timeouts_nested
timeouts_nested-none o h = (ground arith, ground arith, ground arith)

-- Options that the gateway accepts give every call to a service a positive time that ends before
-- the request's own, which ends before the server stops writing the response; the ports are named.
pub validate_gateway_options-IsNested :
    (o : GatewayOptions) → validate_gateway_options o ≡ none → IsNested o
unfolding validate_gateway_options
validate_gateway_options-IsNested o h =
    let (texts, rest) =
      or_else-none (require_all "AppOptions" (gateway_required o))
        (positive_all "AppOptions" (gateway_positive o) or_else timeouts_nested o) h in
    let (numbers, nested) =
      or_else-none (positive_all "AppOptions" (gateway_positive o)) (timeouts_nested o) rest in
    let (app, (management, others)) = require_all-none "AppOptions" (gateway_required o) texts in
    let (request, (read, (write, more))) =
      positive_all-none "AppOptions" (gateway_positive o) numbers in
    let (outer, reads, writes) = timeouts_nested-none o nested in
    record {
      read_positive = read;
      write_positive = write;
      read_inside = reads;
      write_inside = writes;
      request_inside = outer;
      ports = (app, management);
    }
