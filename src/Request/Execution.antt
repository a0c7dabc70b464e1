-- ===== src/Request/Execution.antt =====
-- The two requests that run a statement, as the server reads them.
use cubrid_client.Base.{
  ℕ, ◌+◌, ◌<◌, ◌≡◌, arith, Bool, true, false, List, [], ◌∷◌, ◌++◌, ℤ, pos, length, length-append,
  All, All-append, ◌^◌, ◌==ℤ◌,
}
use cubrid_client.Buffer.{Fits}
use cubrid_client.Constants.{function_code, statement_select}
use cubrid_client.Text.{utf8_encode}
use cubrid_client.Writer.{write_int, add_byte}
use cubrid_client.Writer.Spec.{Emits, Emits-then}
use cubrid_client.Writer.Emits.{int_bytes, write_int-Emits, write_bytes-Emits}
use cubrid_client.Writer.Fields.{
  arg, flat_args, arg-Emits, null_term, length-int_bytes, add_byte-Emits, add_int-Emits,
  write_null_term_string-Emits, write_int_zero-Emits,
}
use cubrid_client.Request.{
  write_code, write_execute, write_prepare_and_execute, flag, no_cache_time,
}
use cubrid_client.Request.Sends.{Sends, last, more, framed-Sends, total}
use cubrid_client.Request.Layout.{int_arg, byte_arg}

-- Eight bytes of zeros: the cache time.
abbrev pub zero_time : List ℕ
zero_time = int_bytes 4 (pos 0) ++ int_bytes 4 (pos 0)

length-zero_time : length zero_time ≡ 8
length-zero_time =
    omega (arith, length-append (int_bytes 4 (pos 0)) (int_bytes 4 (pos 0)), length-int_bytes)

no_cache_time-Emits : Emits no_cache_time (arg zero_time)
no_cache_time-Emits =
    arg-Emits zero_time 8 length-zero_time (omega arith)
      (Emits-then (int_bytes 4 (pos 0)) (int_bytes 4 (pos 0)) zero zero)
  where
    zero : Emits (write_int (pos 0)) (int_bytes 4 (pos 0))
    zero = write_int-Emits (pos 0) (omega arith)

-- A flag is the byte 0 or 1.
flag-Emits : (b : Bool) → Emits (add_byte (flag b)) (arg (byte_arg (flag b)))
flag-Emits true = add_byte-Emits (pos 1) (omega arith)
flag-Emits false = add_byte-Emits (pos 0) (omega arith)

-- The arguments of PREPARE_AND_EXECUTE: the argument count 3, the text with its NUL, the prepare
-- flag, the autocommit flag, EXECUTE_QUERY_ALL, no column and row limit, no bind parameters, no
-- cache time and no timeout.
abbrev pub prepare_and_execute_args : List ℕ → Bool → List (List ℕ)
prepare_and_execute_args sql auto_commit =
    int_arg (pos 3)
    ∷ null_term sql
    ∷ byte_arg (pos 0)
    ∷ byte_arg (flag auto_commit)
    ∷ byte_arg (pos 2)
    ∷ int_arg (pos 0)
    ∷ int_arg (pos 0)
    ∷ []
    ∷ zero_time
    ∷ int_arg (pos 0)
    ∷ []

-- For a text whose UTF-8 form and its NUL are below 2 ^ 31 bytes, and four bytes of CAS_INFO: the
-- PREPARE_AND_EXECUTE request reads as code 41 with exactly `prepare_and_execute_args`.
pub write_prepare_and_execute-Sends :
    (sql : List ℕ) (auto_commit : Bool) (cas_info : List ℕ)
    → length (utf8_encode sql) + 1 < 2 ^ 31
    → length cas_info ≡ 4
    → Sends
        (write_prepare_and_execute sql auto_commit cas_info)
        41
        (prepare_and_execute_args sql auto_commit)
        cas_info
unfolding write_prepare_and_execute write_code function_code
write_prepare_and_execute-Sends sql auto cas short four =
    framed-Sends 41 _ cas 512 (omega arith)
      (omega (arith, length-int_bytes, length-zero_time, length-append (utf8_encode sql) (0 ∷ [])))
      (omega (arith, length-int_bytes, length-zero_time, length-append (utf8_encode sql) (0 ∷ [])))
      four (omega arith)
      (more _ (add_int-Emits (pos 3) (omega arith)) (
        more _ (write_null_term_string-Emits sql short) (
          more _ (add_byte-Emits (pos 0) (omega arith)) (
            more _ (flag-Emits auto) (
              more _ (add_byte-Emits (pos 2) (omega arith)) (
                more _ (add_int-Emits (pos 0) (omega arith)) (
                  more _ (add_int-Emits (pos 0) (omega arith)) (
                    more [] write_int_zero-Emits (
                      more _ no_cache_time-Emits
                        (last _ (add_int-Emits (pos 0) (omega arith))))))))))))

-- The arguments of EXECUTE: the handle, EXECUTE_QUERY_ALL, no column and row limit, no CALL
-- argument, inline fetch for a SELECT alone, no autocommit, not forward only, no cache time, no
-- timeout, and then the binds.
abbrev pub execute_args : ℤ → ℤ → List (List ℕ) → List (List ℕ)
execute_args query_handle statement_type binds =
    int_arg query_handle
    ∷ byte_arg (pos 2)
    ∷ int_arg (pos 0)
    ∷ int_arg (pos 0)
    ∷ []
    ∷ byte_arg (flag (statement_type ==ℤ pos statement_select))
    ∷ byte_arg (pos 0)
    ∷ byte_arg (pos 0)
    ∷ zero_time
    ∷ int_arg (pos 0)
    ∷ binds

-- For a handle in the range of four bytes, bind values that are each below 2 ^ 31 bytes and with
-- their length words below 2 ^ 32 - 100 in all, and four bytes of CAS_INFO: the EXECUTE request reads
-- as code 3 with exactly `execute_args`, the binds last.
pub write_execute-Sends :
    (query_handle statement_type : ℤ) (binds : List (List ℕ)) (cas_info : List ℕ)
    → Fits (2 ^ 31) query_handle
    → All (λ x. length x < 2 ^ 31) binds
    → total binds + 100 < 2 ^ 32
    → length cas_info ≡ 4
    → Sends
        (write_execute query_handle statement_type (flat_args binds) cas_info)
        3
        (execute_args query_handle statement_type binds)
        cas_info
unfolding write_execute write_code function_code
write_execute-Sends q t binds cas hq sizes short four =
    let kind = t ==ℤ pos statement_select in
    framed-Sends 3 _ cas (512 + length (flat_args binds)) (omega arith)
      (All-append (λ x. length x < 2 ^ 31) (execute_args q t []) binds
        (omega (arith, length-int_bytes, length-zero_time)) sizes)
      (omega (arith, length-int_bytes, length-zero_time)) four (omega arith)
      (more _ (add_int-Emits q hq) (
        more _ (add_byte-Emits (pos 2) (omega arith)) (
          more _ (add_int-Emits (pos 0) (omega arith)) (
            more _ (add_int-Emits (pos 0) (omega arith)) (
              more [] write_int_zero-Emits (
                more _ (flag-Emits kind) (
                  more _ (add_byte-Emits (pos 0) (omega arith)) (
                    more _ (add_byte-Emits (pos 0) (omega arith)) (
                      more _ no_cache_time-Emits (
                        more _ (add_int-Emits (pos 0) (omega arith))
                          (record { emits = write_bytes-Emits (flat_args binds) })))))))))))
