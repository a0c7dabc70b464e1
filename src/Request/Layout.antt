-- ===== src/Request/Layout.antt =====
-- Each request as the server reads it. The integer arguments are four-byte big-endian words, the
-- flags single bytes, texts UTF-8 with a NUL behind.
use cubrid_client.Base.{
  ℕ, ◌+◌, ◌<◌, ◌≡◌, arith, includes, false, List, [], ◌∷◌, ℤ, pos, ◌+ℤ◌, length, length-append, ◌^◌,
}
use cubrid_client.Buffer.{Fits}
use cubrid_client.Constants.{function_code}
use cubrid_client.Text.{utf8_encode}
use cubrid_client.Writer.Emits.{int_bytes}
use cubrid_client.Writer.Fields.{
  null_term, length-int_bytes, add_byte-Emits, add_int-Emits, add_long-Emits, add_bytes-Emits,
  write_null_term_string-Emits,
}
use cubrid_client.Request.{
  write_code, write_fetch, write_close_req_handle, write_end_tran, write_set_db_parameter,
  write_check_cas, write_lob_read, write_prepare, assert_preparable_sql,
}
use cubrid_client.Request.Sends.{Sends, last, more, framed-Sends, framed-Sends_bare}

abbrev pub int_arg : ℤ → List ℕ
int_arg v = int_bytes 4 v

abbrev pub byte_arg : ℤ → List ℕ
byte_arg v = int_bytes 1 v

-- For a handle, a start position and a fetch size in the range of four bytes, and four bytes of
-- CAS_INFO: the FETCH request reads as code 8 with the handle, the position counted from 1, the
-- fetch size, a zero flag and result set 0, behind a header of its payload's length and CAS_INFO.
pub write_fetch-Sends :
    (query_handle count fetch_size : ℤ) (cas_info : List ℕ)
    → Fits (2 ^ 31) query_handle
    → Fits (2 ^ 31) (count +ℤ pos 1)
    → Fits (2 ^ 31) fetch_size
    → length cas_info ≡ 4
    → Sends
        (write_fetch query_handle count fetch_size cas_info)
        8
        (int_arg query_handle
          ∷ int_arg (count +ℤ pos 1)
          ∷ int_arg fetch_size
          ∷ byte_arg (pos 0)
          ∷ int_arg (pos 0)
          ∷ [])
        cas_info
unfolding write_fetch write_code function_code
write_fetch-Sends q c f cas hq hc hf four =
    framed-Sends 8 _ cas 64 (omega arith) (omega (arith, length-int_bytes))
      (omega (arith, length-int_bytes)) four (omega arith)
      (more _ (add_int-Emits q hq) (
        more _ (add_int-Emits (c +ℤ pos 1) hc) (
          more _ (add_int-Emits f hf) (
            more _ (add_byte-Emits (pos 0) (omega arith))
              (last _ (add_int-Emits (pos 0) (omega arith)))))))

-- For a parameter and a value in the range of four bytes, and four bytes of CAS_INFO: the
-- SET_DB_PARAMETER request reads as code 5 with the two.
pub write_set_db_parameter-Sends :
    (parameter value : ℤ) (cas_info : List ℕ)
    → Fits (2 ^ 31) parameter
    → Fits (2 ^ 31) value
    → length cas_info ≡ 4
    → Sends
        (write_set_db_parameter parameter value cas_info)
        5
        (int_arg parameter ∷ int_arg value ∷ [])
        cas_info
unfolding write_set_db_parameter write_code function_code
write_set_db_parameter-Sends p v cas hp hv four =
    framed-Sends 5 _ cas 32 (omega arith) (omega (arith, length-int_bytes))
      (omega (arith, length-int_bytes)) four (omega arith)
      (more _ (add_int-Emits p hp) (last _ (add_int-Emits v hv)))

-- For a handle in the range of four bytes, and four bytes of CAS_INFO: the CLOSE_REQ_HANDLE request
-- reads as code 6 with the handle.
pub write_close_req_handle-Sends :
    (query_handle : ℤ) (cas_info : List ℕ)
    → Fits (2 ^ 31) query_handle
    → length cas_info ≡ 4
    → Sends (write_close_req_handle query_handle cas_info) 6 (int_arg query_handle ∷ []) cas_info
unfolding write_close_req_handle write_code function_code
write_close_req_handle-Sends q cas hq four =
    framed-Sends 6 _ cas 16 (omega arith) (omega (arith, length-int_bytes))
      (omega (arith, length-int_bytes)) four (omega arith) (last _ (add_int-Emits q hq))

-- For a transaction type in the range of a signed byte, and four bytes of CAS_INFO: the END_TRAN
-- request reads as code 1 with the type.
pub write_end_tran-Sends :
    (tx_type : ℤ) (cas_info : List ℕ)
    → Fits 128 tx_type
    → length cas_info ≡ 4
    → Sends (write_end_tran tx_type cas_info) 1 (byte_arg tx_type ∷ []) cas_info
unfolding write_end_tran write_code function_code
write_end_tran-Sends t cas ht four =
    framed-Sends 1 _ cas 16 (omega arith) (omega (arith, length-int_bytes))
      (omega (arith, length-int_bytes)) four (omega arith) (last _ (add_byte-Emits t ht))

-- For four bytes of CAS_INFO: the CHECK_CAS request reads as code 32 with no argument.
pub write_check_cas-Sends :
    (cas_info : List ℕ) → length cas_info ≡ 4 → Sends (write_check_cas cas_info) 32 [] cas_info
unfolding write_check_cas write_code function_code
write_check_cas-Sends cas four = framed-Sends_bare 32 cas 8 (omega arith) four (omega arith)

-- For a locator handle below 2 ^ 31 bytes, an offset in the range of eight bytes, a length in the
-- range of four, and four bytes of CAS_INFO: the LOB_READ request reads as code 37 with the handle's
-- bytes, the offset in eight bytes and the length.
pub write_lob_read-Sends :
    (handle : List ℕ) (offset size : ℤ) (cas_info : List ℕ)
    → length handle < 2 ^ 31
    → Fits (2 ^ 63) offset
    → Fits (2 ^ 31) size
    → length cas_info ≡ 4
    → Sends
        (write_lob_read handle offset size cas_info)
        37
        (handle ∷ int_bytes 8 offset ∷ int_arg size ∷ [])
        cas_info
unfolding write_lob_read write_code function_code
write_lob_read-Sends handle o n cas hh ho hn four =
    framed-Sends 37 _ cas (length handle + 32) (omega arith) (omega (arith, length-int_bytes))
      (omega (arith, length-int_bytes)) four (omega arith)
      (more _ (add_bytes-Emits handle hh)
        (more _ (add_long-Emits o ho) (last _ (add_int-Emits n hn))))

-- For a text with no NUL, whose UTF-8 form and its NUL are below 2 ^ 31 bytes, and four bytes of
-- CAS_INFO: the PREPARE request reads as code 2 with the text and its NUL, and two zero bytes.
pub write_prepare-Sends :
    (sql cas_info : List ℕ)
    → includes 0 sql ≡ false
    → length (utf8_encode sql) + 1 < 2 ^ 31
    → length cas_info ≡ 4
    → Sends
        (write_prepare sql cas_info)
        2
        (null_term sql ∷ byte_arg (pos 0) ∷ byte_arg (pos 0) ∷ [])
        cas_info
unfolding write_prepare write_code function_code assert_preparable_sql
write_prepare-Sends sql cas clean short four = rw clean (
    framed-Sends 2 _ cas 512 (omega arith)
      (omega (arith, length-int_bytes, length-append (utf8_encode sql) (0 ∷ [])))
      (omega (arith, length-int_bytes, length-append (utf8_encode sql) (0 ∷ []))) four (omega arith)
      (more _ (write_null_term_string-Emits sql short) (
        more _ (add_byte-Emits (pos 0) (omega arith))
          (last _ (add_byte-Emits (pos 0) (omega arith))))))
