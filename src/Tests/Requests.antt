-- ===== src/Tests/Requests.antt =====
-- Requests at concrete arguments.
use cubrid_client.Base.{ℕ, ◌≡◌, refl, arith, List, [], ◌∷◌, length, pos}
use cubrid_client.Failure.{ok}
use cubrid_client.Request.{write_execute, write_open_database}
use cubrid_client.Request.Sends.{Sends}
use cubrid_client.Request.Execution.{execute_args, write_execute-Sends}
use cubrid_client.Request.Handshake.{open_database_bytes, write_open_database_lem}
use cubrid_client.Writer.Fields.{flat_args}

abbrev cas_info : List ℕ
cas_info = 0 ∷ 255 ∷ 255 ∷ 255 ∷ []

abbrev sql : List ℕ
sql = b'?' ∷ 0xe9 ∷ []

-- The type byte and the value of one bind.
abbrev binds : List (List ℕ)
binds = (8 ∷ []) ∷ (0 ∷ 0 ∷ 0 ∷ 5 ∷ []) ∷ []

write_execute-Sends_example :
    Sends
      (write_execute (pos 3) (pos 21) (flat_args binds) cas_info)
      3
      (execute_args (pos 3) (pos 21) binds)
      cas_info
write_execute-Sends_example =
    write_execute-Sends (pos 3) (pos 21) binds cas_info (omega arith)
      (omega arith, (omega arith, tt)) (omega arith) refl

write_open_database_lem_example :
    (write_open_database (b'd' ∷ []) (b'u' ∷ []) []
      ≡ ok (open_database_bytes (b'd' ∷ []) (b'u' ∷ []) []))
    × (length (open_database_bytes (b'd' ∷ []) (b'u' ∷ []) []) ≡ 628)
write_open_database_lem_example = write_open_database_lem (b'd' ∷ []) (b'u' ∷ []) []
