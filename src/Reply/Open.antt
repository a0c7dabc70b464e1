-- ===== src/Reply/Open.antt =====
-- parseOpenDatabase and parseClientInfoExchange: the replies of the handshake.
use cubrid_client.Base.{ℕ, List, ℤ, pos, ◌-ℤ◌, length, get_or, min, bit_and}
use cubrid_client.Constants.{cas_protocol_version}
use cubrid_client.Failure.{Result}
use cubrid_client.Reader.{
  Parse, result, return, ◌>>=◌, new_reader, parse_int, parse_bytes, parse_cas_info,
}
use cubrid_client.Reply.{throw_server_error, by_code}

-- The redirect port: 0 keeps the broker's socket, a negative number is a refusal.
unfoldable pub parse_client_info_exchange : List ℕ → Result ℤ
parse_client_info_exchange data_bytes = result (parse_int (new_reader data_bytes))

pub record OpenDatabaseResult : Type 0 where
  pub cas_info : List ℕ
  pub response_code : ℤ
  pub proto_version : ℕ
  pub session_id : ℤ

-- What follows a response code that is not negative. The version is the lower of the two sides'.
unfoldable pub read_broker_info : List ℕ → ℤ → Parse OpenDatabaseResult
read_broker_info cas_info response_code = do
  broker_bytes ← parse_bytes (pos 8)
  session_id ← parse_int
  return (record {
    cas_info = cas_info;
    response_code = response_code;
    proto_version = min (bit_and (get_or broker_bytes 4 0) 0x3f) cas_protocol_version;
    session_id = session_id;
  })

unfoldable pub parse_open_database : List ℕ → Result OpenDatabaseResult
unfolding read_broker_info throw_server_error
parse_open_database data_bytes = result (
    (do
      cas_info ← parse_cas_info
      response_code ← parse_int
      by_code (pos (length data_bytes) -ℤ pos 8) (read_broker_info cas_info) response_code)
      (new_reader data_bytes))
