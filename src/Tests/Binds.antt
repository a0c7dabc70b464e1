-- ===== src/Tests/Binds.antt =====
-- A number and a null as prepared binds, and the EXECUTE request that carries them.
use cubrid_client.Base.{ℕ, ◌≡◌, refl, arith, List, [], ◌∷◌, pos, length}
use cubrid_client.Buffer.{fits, be_bytes, word}
use cubrid_client.Param.Double.{is_finite, whole, is_safe}
use cubrid_client.Writer.{
  build, add_byte, write_int, ensure_capacity, new_writer, write_byte, add_int, add_null, to_buffer,
}
use cubrid_client.Failure.{ok}
use cubrid_client.Param.{Param, null, number}
use cubrid_client.Bind.{PreparedBinds, encode_prepared_params}
use cubrid_client.Bind.Prepared.{IsPairs}
use cubrid_client.Request.{write_execute}
use cubrid_client.Request.Sends.{Sends}
use cubrid_client.Request.Execution.{execute_args}
use cubrid_client.Request.Bound.{execute_prepared-Sends}

abbrev cas_info : List ℕ
cas_info = 0 ∷ 255 ∷ 255 ∷ 255 ∷ []

-- 42 and null.
abbrev params : List Param
params = number 0x4045000000000000 ∷ null ∷ []

abbrev encoded : PreparedBinds
encoded = record {
  count = 2;
  bytes =
      0 ∷ 0 ∷ 0 ∷ 1 ∷ 8 ∷ 0 ∷ 0 ∷ 0 ∷ 4 ∷ 0 ∷ 0 ∷ 0 ∷ 42 ∷ 0 ∷ 0 ∷ 0 ∷ 1 ∷ 0 ∷ 0 ∷ 0 ∷ 0 ∷ 0 ∷ [];
}

encodes : encode_prepared_params params ≡ ok encoded
unfolding encode_prepared_params build is_finite whole is_safe fits add_byte write_int
    ensure_capacity new_writer write_byte be_bytes add_int add_null to_buffer word
encodes = refl

execute_prepared-Sends_example :
    (binds : List (List ℕ)) × IsPairs (length params) binds
    × Sends
        (write_execute (pos 3) (pos 21) encoded.bytes cas_info)
        3
        (execute_args (pos 3) (pos 21) binds)
        cas_info
execute_prepared-Sends_example =
    execute_prepared-Sends params encoded (pos 3) (pos 21) cas_info (tt, (tt, tt)) encodes
      (omega arith) (omega arith) refl
