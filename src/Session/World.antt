-- ===== src/Session/World.antt =====
-- The state of a CASConnection and of the wire, and the steps of its methods.
use cubrid_client.Base.{
  ℕ, ◌+◌, Bool, false, ◌&&◌, List, ◌∷◌, ◌++◌, ◌==◌, if◌then◌else◌, ℤ, length, take, drop, get_or,
}
use cubrid_client.Failure.{Result, ok, fail}
use cubrid_client.Errors.{Thrown, failure, connection_lost, socket_refused}
use cubrid_client.Request.{Frame}

pub record SessionParameter : Type 0 where
  pub parameter : ℤ
  pub value : ℤ

-- The fields of CASConnection. `socketDead` and the receive buffer are the network's here; the
-- socket is there or not.
pub record Cas : Type 0 where
  pub has_socket : Bool
  pub connected : Bool
  pub cas_info : List ℕ
  pub proto_version : ℕ
  pub session_id : ℤ
  pub generation : ℕ
  pub failed_exchanges : ℕ
  pub in_handshake : Bool
  pub out_of_transaction : Bool
  pub out_of_transaction_replies : ℕ
  pub cas_verified : Bool
  pub setting_up : Bool
  pub session_parameters : List SessionParameter

-- A request on the wire, and the session that it went to.
pub record Sent : Type 0 where
  pub on : ℕ
  pub payload : List ℕ

pub record World : Type 0 where
  pub cas : Cas
  -- The next tick, and the framed requests sent so far, the last one first.
  pub clock : ℕ
  pub sent : List Sent

-- What the connection waits for: the redirect port, a TLS handshake, the OpenDatabase reply, or the
-- reply to a framed request.
pub data Ask : Type 0 where
  ask_port ask_tls ask_database : Ask
  ask_reply : List ℕ → Ask

pub data Answer : Type 0 where
  -- The socket was seen to be dead before anything was written.
  dead : Answer
  -- Writing or reading failed.
  broken : Thrown → Answer
  -- The bytes that were awaited.
  received : List ℕ → Answer

pub record Network : Type 0 where
  pub opens : ℕ → Bool
  pub answers : ℕ → Ask → Answer

pub data Step {ℓ} (A : Type ℓ) : Type ℓ where
  returned : A → World → Step A
  raised : Thrown → World → Step A

abbrev pub Act {ℓ} : Type ℓ → Type ℓ
Act A = World → Step A

abbrev pub then_do {ℓ κ} : {A : Type ℓ} {B : Type κ} → Step A → (A → Act B) → Step B
then_do (returned a w) f = f a w
then_do (raised e w) f = raised e w

infixl 5 ◌>>=◌ ◌>>◌
abbrev pub ◌>>=◌ {ℓ κ} : {A : Type ℓ} {B : Type κ} → Act A → (A → Act B) → Act B
◌>>=◌ m f w = then_do (m w) f

abbrev pub ◌>>◌ {ℓ κ} : {A : Type ℓ} {B : Type κ} → Act A → Act B → Act B
◌>>◌ m k = m >>= λ _. k

abbrev pub give {ℓ} : {A : Type ℓ} → A → Act A
give a w = returned a w

abbrev pub raise {ℓ} : {A : Type ℓ} → Thrown → Act A
raise e w = raised e w

-- `catch`.
abbrev pub rescue {ℓ} : {A : Type ℓ} → Step A → (Thrown → Act A) → Step A
rescue (returned a w) f = returned a w
rescue (raised e w) f = f e w

abbrev pub lift {ℓ} : {A : Type ℓ} → Result A → Act A
lift (ok a) = give a
lift (fail e) = raise (failure e)

abbrev pub with_cas : (Cas → Cas) → Act (Unit {0})
with_cas f w = returned tt (record w { cas = f w.cas })

abbrev pub get_cas : Act Cas
get_cas w = returned w.cas w

abbrev pub tick : World → World
tick w = record w { clock = w.clock + 1 }

-- `retireSocket`.
abbrev pub retired : Cas → Cas
retired c = record c { has_socket = false; connected = false }

-- `response.copy(this._casInfo, 0, 0, SIZE_CAS_INFO)`.
abbrev pub copied : List ℕ → List ℕ → List ℕ
copied body old = take 4 body ++ drop (length (take 4 body)) old

-- Whether CAS_INFO says that no transaction is open.
abbrev pub says_out : List ℕ → Bool
says_out cas_info = get_or cas_info 0 1 == 0

module _ (net : Network) where
  -- `createSocket`.
  unfoldable pub create_socket : Act (Unit {0})
  create_socket w =
      if net.opens w.clock then returned tt (tick w) else raised socket_refused (tick w)

  abbrev pub heard : Answer → Act (List ℕ)
  heard dead = raise connection_lost
  heard (broken e) = raise e
  heard (received bytes) = give bytes

  -- A write and a read of the handshake, which are not framed.
  unfoldable pub await_bytes : Ask → Act (List ℕ)
  await_bytes ask w = heard (net.answers w.clock ask) (tick w)

  -- What a framed request leads to; it is on the wire unless the socket was seen to be dead.
  abbrev pub on_wire : List ℕ → Answer → Act (List ℕ)
  on_wire payload dead w = raised connection_lost w
  on_wire payload answer w =
      heard answer
        (record w { sent = (record { on = w.cas.generation; payload = payload }) ∷ w.sent })

  -- `send` and then `recv`.
  unfoldable pub send_recv : Frame → Act (List ℕ)
  send_recv f w =
      if w.cas.has_socket && w.cas.connected
      then on_wire f.payload (net.answers w.clock (ask_reply f.payload)) (tick w)
      else raised connection_lost w
