-- ===== src/Config/Checks.antt =====
-- What the shared checks of the options find nothing in.
use text.Mathlib.Text.{◌==◌ as str_eq}
use go_commerce_microservice.Prelude.{
  ◌≡◌, ◌≢◌, refl, false, Option, none, some, String, List, [], ◌∷◌, All, arith, eq_iff, Bool-cases,
  inl, inr,
}
use go_commerce_microservice.Prelude.Int.{ℤ, pos, negsuc, leb_ℤ, ◌≤ℤ◌}
use go_commerce_microservice.Error.{Error}
use go_commerce_microservice.Config.{require_all, positive_all, ◌or_else◌}

pub or_else-none : (a b : Option Error) → (a or_else b) ≡ none → (a ≡ none) × (b ≡ none)
or_else-none none b h = (refl, h)
or_else-none (some e) b h = absurd (ground arith)

pub require_all-none :
    (prefix : String) (fields : List (String × String))
    → require_all prefix fields ≡ none
    → All (λ f. f.1 ≢ "") fields
unfolding require_all
require_all-none prefix [] h = tt
require_all-none prefix ((name, value) ∷ fields) h = elim (Bool-cases (str_eq value "")) [
  | inl missing ↦ absurd (ground arith)
  | inr given ↦
      ((λ e. ground (arith, eq_iff value "")), require_all-none prefix fields (rw given at h))
]

above_zero : (z : ℤ) → leb_ℤ z (pos 0) ≡ false → pos 1 ≤ℤ z
above_zero (pos n) h = ground arith
above_zero (negsuc n) h = ground arith

pub positive_all-none :
    (prefix : String) (fields : List (String × ℤ))
    → positive_all prefix fields ≡ none
    → All (λ f. pos 1 ≤ℤ f.1) fields
unfolding positive_all
positive_all-none prefix [] h = tt
positive_all-none prefix ((name, value) ∷ fields) h = elim (Bool-cases (leb_ℤ value (pos 0))) [
  | inl low ↦ absurd (ground arith)
  | inr high ↦ (above_zero value high, positive_all-none prefix fields (rw high at h))
]
