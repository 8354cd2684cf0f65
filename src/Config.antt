-- ===== src/Config.antt =====
-- The validation of the options: the checks that the services' Validate methods share.
pub mod Checks
pub mod Databases
pub mod Brokers
pub mod Apps
pub mod Accepted
pub mod Nested
use Prim.Native.String.{String, ◌++◌ as concat}
use text.Mathlib.Text.{◌==◌ as str_eq}
use go_commerce_microservice.Prelude.{Bool, Option, none, some, List, [], ◌∷◌, if◌then◌else◌}
use go_commerce_microservice.Prelude.Int.{ℤ, pos, leb_ℤ}
use go_commerce_microservice.Error.{Error}

-- The loop over the required texts.
unfoldable pub require_all : String → List (String × String) → Option Error
require_all prefix [] = none
require_all prefix ((name, value) ∷ fields) =
    let rest = require_all prefix fields in
    if str_eq value ""
    then some (Error.message (concat prefix (concat "." (concat name " is required"))))
    else rest

-- The tests of numbers and of durations in nanoseconds.
unfoldable pub positive_all : String → List (String × ℤ) → Option Error
positive_all prefix [] = none
positive_all prefix ((name, value) ∷ fields) =
    let rest = positive_all prefix fields in
    if leb_ℤ value (pos 0)
    then some
        (Error.message (concat prefix (concat "." (concat name " must be greater than zero"))))
    else rest

-- A check, and the next one if it finds nothing.
infixr 5 ◌or_else◌
abbrev pub ◌or_else◌ : Option Error → Option Error → Option Error
none or_else next = next
(some e) or_else next = some e
