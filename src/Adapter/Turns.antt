-- ===== src/Adapter/Turns.antt =====
-- The steps of a turn of the statement queue, and what a NativeCubridAdapter
-- (src/adapters/native.ts) runs with.
use cubrid_client.Base.{ℕ, Bool, true, false, List, if◌then◌else◌, Option, some, none, ℤ}
use cubrid_client.Failure.{Result, ok, fail, malformed_reply}
use cubrid_client.Errors.{Thrown, failure, connection_lost}
use cubrid_client.Reply.Simple.{parse_simple_response}
use cubrid_client.Value.{Value}
use cubrid_client.Session.World.{Cas, Network, Act}
use cubrid_client.Session.Opening.{CasConfig}
use cubrid_client.Adapter.{Adapter, Turned, done, threw, Turn, then_turn, at_world}

-- The network, the configuration, and the platform's own functions: `String` of a number, `Number`
-- of a cell's value, and `BigInt` of a text.
pub record Platform : Type 0 where
  pub network : Network
  pub config : CasConfig
  pub fetch_size : Option ℕ
  pub max_lob_bytes : Option ℕ
  pub number_text : ℕ → List ℕ
  pub number_of : Value → Option ℤ
  pub big_int : List ℕ → Option ℤ

-- `??`.
abbrev pub or_default {ℓ} : {A : Type ℓ} → Option A → A → A
or_default none d = d
or_default (some a) d = a

infixl 5 ◌>>=◌ ◌>>◌
abbrev pub ◌>>=◌ {ℓ κ} : {A : Type ℓ} {B : Type κ} → Turn A → (A → Turn B) → Turn B
◌>>=◌ m f a = then_turn (m a) f

abbrev pub ◌>>◌ {ℓ κ} : {A : Type ℓ} {B : Type κ} → Turn A → Turn B → Turn B
◌>>◌ m k = m >>= λ _. k

abbrev pub give {ℓ} : {A : Type ℓ} → A → Turn A
give x a = done x a

abbrev pub refuse {ℓ} : {A : Type ℓ} → Thrown → Turn A
refuse e a = threw e a

abbrev pub lifted {ℓ} : {A : Type ℓ} → Result A → Turn A
lifted (ok x) = give x
lifted (fail e) = refuse (failure e)

-- `catch`.
abbrev pub catching {ℓ} : {A : Type ℓ} → Turned A → (Thrown → Turn A) → Turned A
catching (done x a) f = done x a
catching (threw e a) f = f e a

-- A `finally` block.
abbrev pub finally {ℓ} : {A : Type ℓ} → Turned A → Turn (Unit {0}) → Turned A
finally (done x a) k = then_turn (k a) (λ _. give x)
finally (threw e a) k = then_turn (k a) (λ _. refuse e)

abbrev pub the_cas : Turn Cas
the_cas a = done a.world.cas a

abbrev pub on_cas {ℓ} : {A : Type ℓ} → Act A → Turn A
on_cas m a = at_world a (m a.world)

abbrev pub change : (Adapter → Adapter) → Turn (Unit {0})
change f a = done tt (f a)

abbrev pub do_if : Bool → Turn (Unit {0}) → Turn (Unit {0})
do_if b m a = if b then m a else done tt a

-- `instanceof MalformedReplyError`.
abbrev pub is_malformed : Thrown → Bool
is_malformed (failure malformed_reply) = true
is_malformed _ = false

-- A reply is checked; that there is none is no failure.
abbrev pub check_reply : Option (List ℕ) → Turn (Unit {0})
check_reply none = give tt
check_reply (some payload) = lifted (parse_simple_response payload)

-- A reply is there, or the session that it was to come from is gone.
abbrev pub answered_or_lost : Option (List ℕ) → Turn (List ℕ)
answered_or_lost none = refuse connection_lost
answered_or_lost (some reply) = give reply
