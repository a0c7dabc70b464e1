-- ===== src/Reply/Simple.antt =====
-- The short replies: END_TRAN and the like, CHECK_CAS, GET_DB_VERSION, GET_LAST_INSERT_ID, LOB_READ.
use cubrid_client.Base.{
  ℕ, zero, suc, ◌&&◌, List, [], ◌∷◌, ltb, leb, ◌==◌, if◌then◌else◌, ℤ, pos, negsuc, ◌-ℤ◌, length,
  drop, Option, some, none, bit_and,
}
use cubrid_client.Failure.{Result, ok, fail, malformed_reply, cas_reply}
use cubrid_client.Reader.{
  Parse, done, result, return, throw, guard, within, ◌>>=◌, ◌>>◌, new_reader, parse_int,
  parse_ubyte, parse_null_term_string, sub_reader, remaining, read_error,
}
use cubrid_client.Reply.{throw_server_error, by_code, parse_reply, decode_reply}

unfoldable pub parse_simple_response : List ℕ → Result (Unit {0})
unfolding throw_server_error
parse_simple_response data_bytes = result (
    (do code ← parse_int; by_code (pos (length data_bytes) -ℤ pos 4) (λ _. return tt) code)
      (new_reader data_bytes))

-- A live CAS answers with no body at all.
unfoldable pub parse_check_cas : List ℕ → Result (Unit {0})
unfolding parse_simple_response
parse_check_cas [] = ok tt
parse_check_cas (b ∷ bs) = parse_simple_response (b ∷ bs)

unfoldable pub parse_get_db_version : List ℕ → Result (List ℕ)
unfolding throw_server_error
parse_get_db_version data_bytes =
    let size = pos (length data_bytes) -ℤ pos 4 in
    result (
      (do code ← parse_int; by_code size (λ _. parse_null_term_string size) code)
        (new_reader data_bytes))

abbrev none_if_empty : List ℕ → Option (List ℕ)
none_if_empty [] = none
none_if_empty (u ∷ us) = some (u ∷ us)

-- The digits behind a type header of one byte, or of two when the first has bit 0x80.
unfoldable pub read_last_id_cell : ℕ → Parse (Option (List ℕ))
read_last_id_cell size = do
  first ← parse_ubyte
  _ ← (if bit_and first 0x80 == 0 then return 0 else parse_ubyte)
  text ← parse_null_term_string (pos size -ℤ pos (if bit_and first 0x80 == 0 then 1 else 2))
  return (none_if_empty text)

-- A size of -1 is no value; any other below 1 is malformed.
unfoldable pub read_last_id : ℤ → Parse (Option (List ℕ))
unfolding read_last_id_cell
read_last_id (negsuc zero) = return none
read_last_id (negsuc (suc n)) = throw malformed_reply
read_last_id (pos zero) = throw malformed_reply
read_last_id (pos (suc n)) = do
  cell ← sub_reader (pos (suc n))
  within cell (read_last_id_cell (suc n))

unfoldable pub parse_get_last_insert_id : List ℕ → Result (Option (List ℕ))
unfolding parse_reply read_last_id
parse_get_last_insert_id data_bytes =
    parse_reply data_bytes (λ _. do size ← parse_int; read_last_id size)

-- An int32 count and then exactly that many bytes, at most those that were asked for.
unfoldable pub lob_body : List ℕ → ℕ → ℤ → Parse (List ℕ)
unfolding decode_reply throw_server_error remaining
lob_body data_bytes requested (negsuc n) = do
  err ← decode_reply (read_error (pos (length data_bytes) -ℤ pos 4))
  throw (cas_reply (negsuc n) err.code err.message)
lob_body data_bytes requested (pos count) = do
  left ← (λ r. done (remaining r) r)
  guard (leb count requested && count == left) malformed_reply
  return (drop 4 data_bytes)

unfoldable pub parse_lob_read : List ℕ → ℕ → Result (List ℕ)
unfolding lob_body
parse_lob_read data_bytes requested =
    let parsed =
      result
        ((do count ← parse_int; lob_body data_bytes requested count) (new_reader data_bytes)) in
    if ltb (length data_bytes) 4 then fail malformed_reply else parsed
