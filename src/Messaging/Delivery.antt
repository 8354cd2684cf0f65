-- ===== src/Messaging/Delivery.antt =====
-- What the services use of amqp091-go: headers, deliveries and publishings, the broker's replies,
-- and how a delivery is settled.
use Prim.Native.String.{String}
use text.Mathlib.Text.{◌==◌ as str_eq}
use go_commerce_microservice.Prelude.{
  ℕ, Bool, Option, none, some, List, [], ◌∷◌, ◌≡◌, arith, eq_iff, if◌then◌else◌, refl,
}
use go_commerce_microservice.Prelude.Int.{ℤ}
use go_commerce_microservice.Error.{Error}
use go_commerce_microservice.Json.{Body}

-- A header's dynamic type: the signed integers that the code tells apart, or any other value.
pub data HeaderValue : Type 0 where
  int int8 int16 int32 int64 : ℤ → HeaderValue
  str : String → HeaderValue
  other : HeaderValue

abbrev pub Entries : Type 0
Entries = List (String × HeaderValue)

-- `amqp.Table`; `none` is the nil map.
abbrev pub Table : Type 0
Table = Option Entries

abbrev pub find : String → Entries → Option HeaderValue
find k [] = none
find k ((j, v) ∷ rest) = if str_eq j k then some v else find k rest

-- `headers[k] = v`
abbrev pub put : String → HeaderValue → Entries → Entries
put k v [] = (k, v) ∷ []
put k v ((j, w) ∷ rest) = if str_eq j k then (j, v) ∷ rest else (j, w) ∷ put k v rest

pub find-put :
    (k j : String) (v : HeaderValue) (t : Entries)
    → find j (put k v t) ≡ (if str_eq k j then some v else find j t)
find-put k j v [] = refl
find-put k j v ((i, w) ∷ t) = ground (arith, eq_iff k j, eq_iff i k, eq_iff i j, find-put k j v t)

-- What a delivery carries beside its headers and its body, and a publishing sends on.
pub record Properties : Type 0 where
  pub content_type : String
  pub content_encoding : String
  pub priority : ℕ
  pub correlation_id : String
  pub reply_to : String
  pub message_id : String
  pub timestamp : ℕ
  pub type_name : String
  pub app_id : String

pub record Delivery : Type 0 where
  pub headers : Table
  pub properties : Properties
  pub body : Body

pub record Publishing : Type 0 where
  pub exchange : String
  pub routing_key : String
  pub persistent : Bool
  pub headers : Table
  pub properties : Properties
  pub body : Body

-- What the broker does with a publishing that is sent with confirms. A confirmed message reached a
-- queue, or reached none and was returned to the publisher; without a confirm it may be stored.
pub data BrokerReply : Type 0 where
  not_sent : Error → BrokerReply
  no_confirm : Error → Bool → BrokerReply
  negative : BrokerReply
  confirmed : Bool → BrokerReply

-- How the broker sees a delivery after a handler has run.
pub data Settlement : Type 0 where
  acked : Settlement
  requeued : Settlement
  discarded : Settlement
  open_ : Settlement
