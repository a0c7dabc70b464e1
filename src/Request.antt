-- ===== src/Request.antt =====
-- The request builders of src/protocol/protocol.ts. Each returns the frame header and the payload,
-- or what a Buffer write or a check of its own throws.
pub mod Sends
pub mod Layout
pub mod Execution
pub mod Bound
pub mod Handshake
use cubrid_client.Base.{
  ℕ, ◌+◌, ◌*◌, Bool, true, false, List, [], ◌∷◌, ◌++◌, ℤ, pos, ◌+ℤ◌, ◌==ℤ◌, length, replicate,
  includes, if◌then◌else◌,
}
use cubrid_client.Constants.{
  CasFunctionCode, function_code, end_tran, prepare, execute, set_db_parameter, close_req_handle,
  fetch, get_db_version, con_close, check_cas, lob_read, get_last_insert_id, prepare_and_execute,
  cas_magic, cas_magic_ssl, cas_version, open_db_field_size, open_db_filler_size,
  open_db_reserved_size, open_db_total_size, statement_select,
}
use cubrid_client.Failure.{Result, ok, fail, error, ◌>>=◌}
use cubrid_client.Writer.{
  Write, ◌>>◌, build, build_header, write_byte, write_int, write_bytes, write_fixed_string,
  write_null_term_string, add_byte, add_int, add_long, add_bytes,
}

pub record Frame : Type 0 where
  pub header : List ℕ
  pub payload : List ℕ

-- `PacketWriter.buildHeader(payload.length, casInfo)` and the payload.
unfoldable pub framed : List ℕ → Result (List ℕ) → Result Frame
framed cas_info r = do
  payload ← r
  header ← build_header (length payload) cas_info
  ok (record { header = header; payload = payload })

abbrev flag : Bool → ℤ
flag b = pos (if b then 1 else 0)

-- `w.writeByte(CASFunctionCode...)`.
unfoldable pub write_code : CasFunctionCode → Write
write_code code = write_byte (pos (function_code code))

-- The cache time of the execute requests: eight bytes of zeros behind their length.
abbrev no_cache_time : Write
no_cache_time = do write_int (pos 8); write_int (pos 0); write_int (pos 0)

unfoldable pub write_prepare_and_execute : List ℕ → Bool → List ℕ → Result Frame
write_prepare_and_execute sql auto_commit cas_info = framed cas_info (
    build 512 (do
      write_code prepare_and_execute
      add_int (pos 3)
      write_null_term_string sql
      add_byte (pos 0)
      add_byte (flag auto_commit)
      add_byte (pos 2)
      add_int (pos 0)
      add_int (pos 0)
      write_int (pos 0)
      no_cache_time
      add_int (pos 0)))

-- The SQL text must hold no NUL.
unfoldable pub assert_preparable_sql : List ℕ → Result (Unit {0})
assert_preparable_sql sql = if includes 0 sql then fail error else ok tt

unfoldable pub write_prepare : List ℕ → List ℕ → Result Frame
write_prepare sql cas_info = do
  _ ← assert_preparable_sql sql
  framed cas_info (
      build 512
        (do write_code prepare; write_null_term_string sql; add_byte (pos 0); add_byte (pos 0)))

-- `binds` are the bytes of the PreparedBinds.
unfoldable pub write_execute : ℤ → ℤ → List ℕ → List ℕ → Result Frame
write_execute query_handle statement_type binds cas_info = framed cas_info (
    build (512 + length binds) (do
      write_code execute
      add_int query_handle
      add_byte (pos 2)
      add_int (pos 0)
      add_int (pos 0)
      write_int (pos 0)
      add_byte (flag (statement_type ==ℤ pos statement_select))
      add_byte (pos 0)
      add_byte (pos 0)
      no_cache_time
      add_int (pos 0)
      write_bytes binds))

-- The start position counts from 1.
unfoldable pub write_fetch : ℤ → ℤ → ℤ → List ℕ → Result Frame
write_fetch query_handle current_tuple_count fetch_size cas_info = framed cas_info (
    build 64 (do
      write_code fetch
      add_int query_handle
      add_int (current_tuple_count +ℤ pos 1)
      add_int fetch_size
      add_byte (pos 0)
      add_int (pos 0)))

unfoldable pub write_close_req_handle : ℤ → List ℕ → Result Frame
write_close_req_handle query_handle cas_info =
    framed cas_info (build 16 (do write_code close_req_handle; add_int query_handle))

unfoldable pub write_end_tran : ℤ → List ℕ → Result Frame
write_end_tran tx_type cas_info =
    framed cas_info (build 16 (do write_code end_tran; add_byte tx_type))

unfoldable pub write_set_db_parameter : ℤ → ℤ → List ℕ → Result Frame
write_set_db_parameter parameter value cas_info =
    framed cas_info (build 32 (do write_code set_db_parameter; add_int parameter; add_int value))

unfoldable pub write_get_db_version : Bool → List ℕ → Result Frame
write_get_db_version auto_commit cas_info =
    framed cas_info (build 16 (do write_code get_db_version; add_byte (flag auto_commit)))

unfoldable pub write_con_close : List ℕ → Result Frame
write_con_close cas_info = framed cas_info (build 8 (write_code con_close))

unfoldable pub write_check_cas : List ℕ → Result Frame
write_check_cas cas_info = framed cas_info (build 8 (write_code check_cas))

unfoldable pub write_get_last_insert_id : List ℕ → Result Frame
write_get_last_insert_id cas_info = framed cas_info (build 8 (write_code get_last_insert_id))

unfoldable pub write_lob_read : List ℕ → ℤ → ℤ → List ℕ → Result Frame
write_lob_read handle offset size cas_info = framed cas_info (
    build (length handle + 32)
      (do write_code lob_read; add_bytes handle; add_long offset; add_int size))

-- Ten bytes, unframed: the magic word, the client type and the protocol version.
unfoldable pub write_client_info_exchange : Bool → Result (List ℕ)
write_client_info_exchange use_ssl = build 10 (do
  write_bytes (if use_ssl then cas_magic_ssl else cas_magic)
  write_byte (pos 3)
  write_byte (pos cas_version)
  write_byte (pos 0)
  write_byte (pos 0)
  write_byte (pos 0))

-- 628 bytes, unframed.
unfoldable pub write_open_database : List ℕ → List ℕ → List ℕ → Result (List ℕ)
write_open_database database user password = build open_db_total_size (do
  write_fixed_string database open_db_field_size
  write_fixed_string user open_db_field_size
  write_fixed_string password open_db_field_size
  write_bytes (replicate open_db_filler_size 0)
  write_bytes (replicate open_db_reserved_size 0))
