-- ===== src/Error.antt =====
-- Go's `error` values as the services build and inspect them: sentinels, plain messages,
-- `fmt.Errorf("...: %w")` (`indexed` is `items[%d]: %w`), `errors.Join` and `errors.Is`.
use go_commerce_microservice.Prelude.{ℕ, String, Bool, true, false, ◌||◌}

-- The errors that the code compares with `errors.Is`, or that a driver or the schema raises.
pub data Sentinel : Type 0 where
  deadline_exceeded canceled record_not_found order_not_found : Sentinel
  unique_violation check_violation connection_lost : Sentinel

mutual
  pub data Error : Type 0 where
    sentinel : Sentinel → Error
    message : String → Error
    wrapped : String → Error → Error
    joined : Error → Error → Error
    indexed : String → ℕ → Error → Error

abbrev pub same : Sentinel → Sentinel → Bool
same Sentinel.deadline_exceeded Sentinel.deadline_exceeded = true
same Sentinel.canceled Sentinel.canceled = true
same Sentinel.record_not_found Sentinel.record_not_found = true
same Sentinel.order_not_found Sentinel.order_not_found = true
same Sentinel.unique_violation Sentinel.unique_violation = true
same Sentinel.check_violation Sentinel.check_violation = true
same Sentinel.connection_lost Sentinel.connection_lost = true
same _ _ = false

-- `errors.Is(err, target)`, which looks through wrapping and joining.
abbrev pub is_error : Error → Sentinel → Bool
is_error (Error.sentinel s) t = same s t
is_error (Error.message m) t = false
is_error (Error.wrapped m e) t = is_error e t
is_error (Error.joined a b) t = is_error a t || is_error b t
is_error (Error.indexed m i e) t = is_error e t
