-- ===== src/Reply.antt =====
-- The reply parsers of src/protocol/protocol.ts. `data` is a reply behind its CAS_INFO.
pub mod Open
pub mod Execute
pub mod Simple
pub mod Verdict
pub mod Total
use cubrid_client.Base.{
  ℕ, ◌+◌, ◌-◌, Bool, List, ltb, leb, if◌then◌else◌, ℤ, pos, negsuc, ◌-ℤ◌, length,
}
use cubrid_client.Failure.{
  Failure, range_error, error, unsupported_value, malformed_reply, cas_reply, diverges, Result, ok,
  fail,
}
use cubrid_client.Reader.{
  Parse, Outcome, done, thrown, result, return, throw, ◌>>=◌, ◌>>◌, new_reader, parse_int,
  read_error,
}

-- Any failure that is not a known verdict is malformed.
unfoldable pub as_verdict : Failure → Failure
as_verdict range_error = malformed_reply
as_verdict error = malformed_reply
as_verdict e = e

unfoldable pub decode_reply {ℓ} : {A : Type ℓ} → Parse A → Parse A
unfolding as_verdict
decode_reply decode r = elim (decode r) [
  | done a r' ↦ done a r'
  | thrown e r' ↦ thrown (as_verdict e) r'
]

-- The error block behind a negative response code, thrown as a CasReplyError.
unfoldable pub throw_server_error {ℓ} : {A : Type ℓ} → ℤ → ℤ → Parse A
throw_server_error response_code size = do
  err ← read_error size
  throw (cas_reply response_code err.code err.message)

-- A response code: an error block if it is negative, and else the rest of the reply.
abbrev pub by_code {ℓ} : {A : Type ℓ} → ℤ → (ℤ → Parse A) → ℤ → Parse A
by_code size body (pos n) = body (pos n)
by_code size body (negsuc n) = throw_server_error (negsuc n) size

-- The opening of every reply with a body: its size, its response code, an error block, or the body,
-- whose failures are verdicts.
unfoldable pub parse_reply {ℓ} : {A : Type ℓ} → List ℕ → (ℤ → Parse A) → Result A
unfolding decode_reply throw_server_error
parse_reply data_bytes body =
    let parsed = result (
      (do
        code ← parse_int
        by_code (pos (length data_bytes) -ℤ pos 4) (λ c. decode_reply (body c)) code)
        (new_reader data_bytes)) in
    if ltb (length data_bytes) 8 then fail malformed_reply else parsed
