-- ===== src/Reply/Execute.antt =====
-- The replies of PREPARE, PREPARE_AND_EXECUTE, EXECUTE and FETCH.
use cubrid_client.Base.{
  ℕ, zero, suc, Bool, true, false, ◌&&◌, List, [], ◌∷◌, ltb, if◌then◌else◌, ℤ, pos, negsuc, ◌==ℤ◌,
  pos_part, is_negative, Option, some, none,
}
use cubrid_client.Columns.{ColumnMeta, parse_column_metadata}
use cubrid_client.Constants.{statement_select}
use cubrid_client.Failure.{Result, malformed_reply, cas_reply}
use cubrid_client.Reader.{
  Parse, done, return, throw, ◌>>=◌, new_reader, parse_byte, parse_int, parse_bytes,
  parse_null_term_string, remaining,
}
use cubrid_client.Reply.{parse_reply}
use cubrid_client.Rows.{Row, parse_row_data}

pub record PrepareResult : Type 0 where
  pub query_handle : ℤ
  pub statement_type : ℤ
  pub bind_count : ℤ
  pub column_count : ℤ
  pub columns : List ColumnMeta

pub record ResultInfo : Type 0 where
  pub statement_type : ℤ
  pub result_count : ℤ

pub record PrepareAndExecuteResult : Type 0 where
  pub statement : PrepareResult
  pub total_tuple_count : ℤ
  pub result_infos : List ResultInfo
  pub rows : List Row

-- A count from the wire as a number of rounds: none if it is negative.
unfoldable pub read_prepare_info : ℤ → Parse PrepareResult
read_prepare_info query_handle = do
  _ ← parse_int
  statement_type ← parse_byte
  bind_count ← parse_int
  _ ← parse_byte
  column_count ← parse_int
  columns ← parse_column_metadata (pos_part column_count)
  return (record {
    query_handle = query_handle;
    statement_type = statement_type;
    bind_count = bind_count;
    column_count = column_count;
    columns = columns;
  })

-- An EXECUTE reply can report one statement's failure in place of its result.
unfoldable pub failed_statement : ℤ → Parse ResultInfo
failed_statement result_count = do
  code ← parse_int
  size ← parse_int
  message ← parse_null_term_string size
  throw (cas_reply result_count code message)

-- The rest of a result: the OID and the cache time.
unfoldable pub finished_statement : ℤ → ℤ → Parse ResultInfo
finished_statement statement_type result_count = do
  _ ← parse_bytes (pos 8)
  _ ← parse_int
  _ ← parse_int
  return (record { statement_type = statement_type; result_count = result_count })

unfoldable pub parse_result_info : Bool → Parse ResultInfo
unfolding failed_statement finished_statement
parse_result_info prepared = do
  statement_type ← parse_byte
  result_count ← parse_int
  if prepared && is_negative result_count
      then failed_statement result_count
      else finished_statement statement_type result_count

unfoldable pub parse_result_infos : ℕ → Bool → Parse (List ResultInfo)
unfolding parse_result_info
parse_result_infos zero prepared = return []
parse_result_infos (suc n) prepared = do
  info ← parse_result_info prepared
  infos ← parse_result_infos n prepared
  return (info ∷ infos)

-- The column info flag of an EXECUTE reply is 0 or 1, and 1 brings a new description.
unfoldable pub refreshed : PrepareResult → ℤ → Parse PrepareResult
refreshed statement flag =
    if flag ==ℤ pos 1
    then read_prepare_info statement.query_handle
    else if flag ==ℤ pos 0
    then return statement
    else throw malformed_reply

abbrev pub described : Bool → PrepareResult → ℤ → Parse PrepareResult
described true statement flag = refreshed statement flag
described false statement flag = return statement

unfoldable pub read_description : PrepareResult → ℕ → Bool → Parse PrepareResult
unfolding refreshed
read_description statement proto_version prepared =
    if ltb 1 proto_version
    then (do flag ← parse_byte; described prepared statement flag)
    else return statement

abbrev pub read_shard_id : ℕ → Parse ℤ
read_shard_id proto_version = if ltb 4 proto_version then parse_int else return (pos 0)

-- `parseRowData` for a positive count.
unfoldable pub read_tuples : List ColumnMeta → ℤ → Parse (List Row)
read_tuples columns (pos (suc n)) = parse_row_data columns (suc n) false
read_tuples columns _ = return []

unfoldable pub inline_rows : List ColumnMeta → ℤ → Parse (List Row)
unfolding read_tuples
inline_rows columns (pos n) = do tuple_count ← parse_int; read_tuples columns tuple_count
inline_rows columns (negsuc n) = return []

-- The inline fetch of a SELECT whose reply goes on.
unfoldable pub read_inline_fetch : PrepareResult → Parse (List Row)
unfolding inline_rows remaining
read_inline_fetch current = do
  left ← (λ r. done (remaining r) r)
  if current.statement_type ==ℤ pos statement_select && ltb 0 left
      then (do fetch_code ← parse_int; inline_rows current.columns fetch_code)
      else return []

unfoldable pub read_execution : PrepareResult → ℤ → ℕ → Bool → Parse PrepareAndExecuteResult
unfolding read_description read_inline_fetch
read_execution statement total_tuple_count proto_version prepared = do
  _ ← parse_byte
  result_count ← parse_int
  result_infos ← parse_result_infos (pos_part result_count) prepared
  current ← read_description statement proto_version prepared
  _ ← read_shard_id proto_version
  rows ← read_inline_fetch current
  return (record {
    statement = current;
    total_tuple_count = total_tuple_count;
    result_infos = result_infos;
    rows = rows;
  })

unfoldable pub read_execute_reply : ℕ → ℤ → Parse PrepareAndExecuteResult
unfolding read_execution
read_execute_reply proto_version query_handle = do
  statement ← read_prepare_info query_handle
  total ← parse_int
  read_execution statement total proto_version false

unfoldable pub parse_prepare_and_execute : List ℕ → ℕ → Result PrepareAndExecuteResult
unfolding parse_reply read_execute_reply
parse_prepare_and_execute data_bytes proto_version =
    parse_reply data_bytes (read_execute_reply proto_version)

unfoldable pub parse_prepare : List ℕ → Result PrepareResult
unfolding parse_reply read_prepare_info
parse_prepare data_bytes = parse_reply data_bytes read_prepare_info

unfoldable pub parse_execute : List ℕ → PrepareResult → ℕ → Result PrepareAndExecuteResult
unfolding parse_reply read_execution
parse_execute data_bytes statement proto_version =
    parse_reply data_bytes (λ code. read_execution statement code proto_version true)

pub record FetchResult : Type 0 where
  pub tuple_count : ℤ
  pub rows : List Row

unfoldable pub read_fetch : List ColumnMeta → Parse FetchResult
unfolding read_tuples
read_fetch columns = do
  tuple_count ← parse_int
  rows ← read_tuples columns tuple_count
  return (record { tuple_count = tuple_count; rows = rows })

unfoldable pub parse_fetch : List ℕ → List ColumnMeta → Result FetchResult
unfolding parse_reply read_fetch
parse_fetch data_bytes columns = parse_reply data_bytes (λ _. read_fetch columns)

-- The handle of a reply that may still fail to decode; `none` for an error or too few bytes.
unfoldable pub read_query_handle : List ℕ → Option ℤ
read_query_handle data_bytes = elim (parse_int (new_reader data_bytes)) [
  | done code r ↦ if is_negative code then none else some code
  | _ ↦ none
]
