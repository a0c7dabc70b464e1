-- ===== src/Request/Bound.antt =====
-- A prepared statement's parameters on their way to the server: encodePreparedParams and then
-- writeExecute.
use cubrid_client.Base.{
  ap, sym, ◌∙◌, pos, ℕ, ◌+◌, ◌<◌, ◌≡◌, arith, List, ℤ, length, All, inl, inr, ◌^◌,
}
use cubrid_client.Buffer.{Fits}
use cubrid_client.Failure.{ok, fail, error}
use cubrid_client.Param.{Param}
use cubrid_client.Writer.Fields.{flat_args, length-int_bytes}
use cubrid_client.Bind.{PreparedBinds, encode_prepared_params}
use cubrid_client.Bind.Single.{IsSized}
use cubrid_client.Bind.Prepared.{IsPairs, no_pairs, one_pair, encode_prepared_params-IsPairs}
use cubrid_client.Request.{write_execute}
use cubrid_client.Request.Sends.{Sends, length-flat_args}
use cubrid_client.Request.Execution.{execute_args, write_execute-Sends}

IsPairs-All : {n : ℕ} {binds : List (List ℕ)} → IsPairs n binds → All (λ x. length x < 2 ^ 31) binds
IsPairs-All no_pairs = tt
IsPairs-All (one_pair code value h pairs) =
    (omega (arith, length-int_bytes 1 (pos code)), (h, IsPairs-All pairs))

ok-injective {ℓ} : {A : Type ℓ} {x y : A} → ok x ≡ ok y → x ≡ y
ok-injective e = cc

error-ok {ℓ} : {A : Type ℓ} {x : A} → fail error ≡ ok x → ⊥
error-ok e = cc

-- For parameters whose values a four-byte length can state, which encodePreparedParams has encoded
-- in fewer than 2 ^ 32 - 100 bytes, a handle in the range of four bytes and four bytes of CAS_INFO:
-- the EXECUTE request with these binds reads as code 3 with exactly `execute_args`, whose last
-- arguments are a type byte and a value for each parameter.
pub execute_prepared-Sends :
    (params : List Param) (encoded : PreparedBinds) (query_handle statement_type : ℤ)
    (cas_info : List ℕ)
    → All IsSized params
    → encode_prepared_params params ≡ ok encoded
    → length encoded.bytes + 100 < 2 ^ 32
    → Fits (2 ^ 31) query_handle
    → length cas_info ≡ 4
    → (binds : List (List ℕ)) × IsPairs (length params) binds
      × Sends
          (write_execute query_handle statement_type encoded.bytes cas_info)
          3
          (execute_args query_handle statement_type binds)
          cas_info
execute_prepared-Sends params encoded q t cas sized e short hq four =
    elim (encode_prepared_params-IsPairs params sized) [
      | inl threw ↦ absurd (error-ok (sym threw ∙ e))
      | inr (binds, pairs, e') ↦
          let same : encoded.bytes ≡ flat_args binds =
            ap (λ b. b.bytes) (ok-injective (sym e ∙ e')) in
          (
            binds,
            pairs,
            rw same (
                write_execute-Sends q t binds cas hq (IsPairs-All pairs)
                  (omega (arith, length-flat_args binds, ap length same)) four),
          )
    ]
