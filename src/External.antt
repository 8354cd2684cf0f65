-- ===== src/External.antt =====
-- What the services take from outside the repository: UUIDs, 64-bit floats and the clock.
-- A UUID is its 128-bit number, and a float its bit pattern; their operations are parameters.
use Prim.Native.Nat.{ℕ}
use Prim.Native.String.{String}
use mathlib.Core.Bool.{Bool}
use mathlib.Core.Option.{Option, some}
use mathlib.Core.Path.{◌≡◌}
use go_commerce_microservice.Prelude.Int.{ℤ}

abbrev pub Uuid : Type 0
Uuid = ℕ

abbrev pub Time : Type 0
Time = ℕ

-- The bit pattern of a `float64`; the pattern 0 is +0.0, Go's zero value.
abbrev pub Float64 : Type 0
Float64 = ℕ

-- `uuid.Parse` and `(uuid.UUID).String`: what is printed is read back.
pub record UuidText : Type 0 where
  pub parse : String → Option Uuid
  pub print : Uuid → String
  pub parse-print : (id : Uuid) → parse (print id) ≡ some id

-- The arithmetic of `float64` that the services use; `finite` is neither a NaN nor an infinity.
pub record FloatOps : Type 0 where
  pub add : Float64 → Float64 → Float64
  pub mul : Float64 → Float64 → Float64
  pub of_int : ℤ → Float64
  pub lt : Float64 → Float64 → Bool
  pub finite : Float64 → Bool

-- `uuid.New()`: the n-th identifier drawn during a call.
abbrev pub Fresh : Type 0
Fresh = ℕ → Uuid
