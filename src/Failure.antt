-- ===== src/Failure.antt =====
-- What a call can throw (src/errors/internal-errors.ts and the classes of protocol.ts), and a
-- call's result. Message texts are left out, except the server's own message in a CasReplyError.
use cubrid_client.Base.{ℕ, List, ℤ}

pub data Failure : Type 0 where
  -- RangeError: a Buffer read or write out of its bounds, or `assertAvailable`.
  range_error : Failure
  -- A plain Error.
  error : Failure
  unsupported_value : Failure
  malformed_reply : Failure
  -- CasReplyError: the response code, the server's code and the server's message.
  cas_reply : ℤ → ℤ → List ℕ → Failure
  -- No exception: a loop that would not end.
  diverges : Failure

pub data Result {ℓ} (A : Type ℓ) : Type ℓ where
  ok : A → Result A
  fail : Failure → Result A

infixl 5 ◌>>=◌
abbrev pub ◌>>=◌ {ℓ κ} : {A : Type ℓ} {B : Type κ} → Result A → (A → Result B) → Result B
ok a >>= f = f a
fail e >>= f = fail e
