-- ===== src/Json.antt =====
-- JSON payloads: what `json.Marshal` writes of the services' maps, and how `json.Unmarshal` fills
-- a field of a struct. A body is a text that parses to a document or one that does not.
use Prim.Native.Char.{code}
use Prim.Native.String.{String}
use go_commerce_microservice.Prelude.{
  ℕ, ◌-◌, ◌^◌, Bool, true, false, ◌&&◌, Option, none, some, List, [], ◌∷◌, ◌++◌, leb, ltb, ◌==◌,
  ◌>>=◌, ◌≡◌, refl, if◌then◌else◌,
}
use go_commerce_microservice.Prelude.Int.{ℤ, pos_part, neg_part}
use go_commerce_microservice.External.{Float64, FloatOps}

-- `integer` is a number without fraction or exponent, `real` any other.
mutual
  pub data Json : Type 0 where
    null : Json
    boolean : Bool → Json
    text : String → Json
    integer : ℤ → Json
    real : Float64 → Json
    array : Items → Json
    object : Fields → Json

  pub data Items : Type 0 where
    nil : Items
    cons : Json → Items → Items

  pub data Fields : Type 0 where
    end : Fields
    field : String → Json → Fields → Fields

pub data Body : Type 0 where
  malformed : Body
  document : Json → Body

-- The case folding of field names: an upper-case letter stands for the letters of its class, the
-- long s and the Kelvin sign among them.
abbrev fold : ℕ → ℕ
fold c =
    if leb b'a' c && leb c b'z'
    then c - 32
    else if c == 383
    then 83
    else if c == 8490
    then 75
    else c

abbrev pub equal_fold : String → String → Bool
equal_fold String.[] String.[] = true
equal_fold (String.◌∷◌ c s) (String.◌∷◌ d t) = fold (code c) == fold (code d) && equal_fold s t
equal_fold _ _ = false

-- What one JSON member does to a field of type `string`: `none` is an `UnmarshalTypeError`.
abbrev text_member : Json → Option String → Option String
text_member (Json.text s) (some _) = some s
text_member Json.null acc = acc
text_member _ _ = none

-- An `int` takes an integer of 64 bits; a number with a fraction does not fit.
abbrev pub is_int64 : ℤ → Bool
is_int64 z = ltb (pos_part z) (2 ^ 63) && leb (neg_part z) (2 ^ 63)

abbrev int_member : Json → Option ℤ → Option ℤ
int_member (Json.integer z) (some _) = if is_int64 z then some z else none
int_member Json.null acc = acc
int_member _ _ = none

-- A `float64` takes every number.
abbrev real_member : FloatOps → Json → Option Float64 → Option Float64
real_member fl (Json.real x) (some _) = some x
real_member fl (Json.integer z) (some _) = some (fl.of_int z)
real_member fl Json.null acc = acc
real_member fl _ _ = none

-- A struct's field takes each member whose name matches, the last one winning; absent, it keeps
-- the zero value.
abbrev pub text_field : String → Fields → Option String → Option String
text_field name Fields.end acc = acc
text_field name (Fields.field k v rest) acc =
    text_field name rest (if equal_fold name k then text_member v acc else acc)

abbrev pub int_field : String → Fields → Option ℤ → Option ℤ
int_field name Fields.end acc = acc
int_field name (Fields.field k v rest) acc =
    int_field name rest (if equal_fold name k then int_member v acc else acc)

abbrev pub real_field : FloatOps → String → Fields → Option Float64 → Option Float64
real_field fl name Fields.end acc = acc
real_field fl name (Fields.field k v rest) acc =
    real_field fl name rest (if equal_fold name k then real_member fl v acc else acc)

-- A slice with the elements that its backing array holds past its length: decoding an array into
-- it writes over the old elements, so that a member which is missing in JSON keeps its old value.
pub record Slice (A : Type 0) : Type 0 where
  pub visible : List A
  pub spare : List A

module _ {A : Type 0} where
  abbrev pub empty_slice : Slice A
  empty_slice = record { visible = []; spare = [] }

  -- What an array is decoded onto; an empty array makes a new slice.
  unfoldable pub memory_for : Items → Slice A → List A
  memory_for Items.nil s = []
  memory_for (Items.cons v vs) s = s.visible ++ s.spare

  abbrev pub with_element : A → Slice A → Slice A
  with_element a s = record { visible = a ∷ s.visible; spare = s.spare }

  -- The elements of an array, each decoded onto the old one or onto the zero value.
  unfoldable pub elements_onto : (A → Json → Option A) → A → Items → List A → Option (Slice A)
  elements_onto onto zero_value Items.nil memory = some (record { visible = []; spare = memory })
  elements_onto onto zero_value (Items.cons v vs) [] = do
    a ← onto zero_value v
    s ← elements_onto onto zero_value vs []
    some (with_element a s)
  elements_onto onto zero_value (Items.cons v vs) (old ∷ memory) = do
    a ← onto old v
    s ← elements_onto onto zero_value vs memory
    some (with_element a s)

  pub memory_for-empty : (vs : Items) → memory_for vs empty_slice ≡ []
  unfolding memory_for
  memory_for-empty Items.nil = refl
  memory_for-empty (Items.cons v vs) = refl
