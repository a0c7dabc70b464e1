-- ===== src/Reply/Total.antt =====
-- The parsers of prepared and executed statements on arbitrary bytes.
use cubrid_client.Base.{ℕ, zero, suc, Bool, true, false, List, [], ◌∷◌, ltb, ℤ, pos, negsuc}
use cubrid_client.Columns.{ColumnMeta}
use cubrid_client.Failure.{malformed_reply}
use cubrid_client.Reader.Rules.{
  Steady, steady_rules, Steady-return, Steady-bind, Steady-throw, Steady-if, Steady-parse_int,
  Steady-parse_byte,
}
use cubrid_client.Reply.Execute.{
  PrepareResult, read_prepare_info, failed_statement, finished_statement, parse_result_info,
  parse_result_infos, refreshed, described, read_description, read_tuples, inline_rows,
  read_inline_fetch, read_execution, read_execute_reply, parse_prepare_and_execute, parse_prepare,
  parse_execute, read_fetch, parse_fetch,
}
use cubrid_client.Reply.Simple.{read_last_id_cell, read_last_id, parse_get_last_insert_id}
use cubrid_client.Reply.Verdict.{IsDecided, parse_reply-IsDecided}
use cubrid_client.Rows.Laws.{Steady-parse_column_metadata, Steady-parse_row_data}

Steady-read_prepare_info : (handle : ℤ) → Steady (read_prepare_info handle)
unfolding read_prepare_info
Steady-read_prepare_info handle = search (steady_rules, Steady-parse_column_metadata) depth 20

Steady-failed_statement : (count : ℤ) → Steady (failed_statement count)
unfolding failed_statement
Steady-failed_statement count = search steady_rules depth 12

Steady-finished_statement : (kind count : ℤ) → Steady (finished_statement kind count)
unfolding finished_statement
Steady-finished_statement kind count = search steady_rules depth 12

Steady-parse_result_info : (prepared : Bool) → Steady (parse_result_info prepared)
unfolding parse_result_info
Steady-parse_result_info prepared =
    search (steady_rules, Steady-failed_statement, Steady-finished_statement) depth 12

Steady-parse_result_infos : (n : ℕ) (prepared : Bool) → Steady (parse_result_infos n prepared)
unfolding parse_result_infos
Steady-parse_result_infos zero prepared = Steady-return []
Steady-parse_result_infos (suc n) prepared =
    Steady-bind (Steady-parse_result_info prepared) (λ info.
      Steady-bind (Steady-parse_result_infos n prepared) (λ infos. Steady-return (info ∷ infos)))

Steady-refreshed : (s : PrepareResult) (flag : ℤ) → Steady (refreshed s flag)
unfolding refreshed
Steady-refreshed s flag = search (steady_rules, Steady-read_prepare_info) depth 10

Steady-described : (b : Bool) (s : PrepareResult) (flag : ℤ) → Steady (described b s flag)
Steady-described true s flag = Steady-refreshed s flag
Steady-described false s flag = Steady-return s

Steady-read_description :
    (s : PrepareResult) (version : ℕ) (prepared : Bool)
    → Steady (read_description s version prepared)
unfolding read_description
Steady-read_description s version prepared =
    Steady-if (ltb 1 version) (Steady-bind Steady-parse_byte (Steady-described prepared s))
      (Steady-return s)

Steady-read_tuples : (columns : List ColumnMeta) (count : ℤ) → Steady (read_tuples columns count)
unfolding read_tuples
Steady-read_tuples columns (pos (suc n)) = Steady-parse_row_data columns (suc n) false
Steady-read_tuples columns (pos zero) = Steady-return []
Steady-read_tuples columns (negsuc n) = Steady-return []

Steady-inline_rows : (columns : List ColumnMeta) (code : ℤ) → Steady (inline_rows columns code)
unfolding inline_rows
Steady-inline_rows columns (pos n) = Steady-bind Steady-parse_int (Steady-read_tuples columns)
Steady-inline_rows columns (negsuc n) = Steady-return []

Steady-read_inline_fetch : (s : PrepareResult) → Steady (read_inline_fetch s)
unfolding read_inline_fetch
Steady-read_inline_fetch s = search (steady_rules, Steady-inline_rows) depth 12

Steady-read_execution :
    (s : PrepareResult) (total : ℤ) (version : ℕ) (prepared : Bool)
    → Steady (read_execution s total version prepared)
unfolding read_execution
Steady-read_execution s total version prepared =
    search
      (steady_rules, Steady-parse_result_infos, Steady-read_description, Steady-read_inline_fetch)
      depth 20

Steady-read_execute_reply : (version : ℕ) (handle : ℤ) → Steady (read_execute_reply version handle)
unfolding read_execute_reply
Steady-read_execute_reply version handle =
    search (steady_rules, Steady-read_prepare_info, Steady-read_execution) depth 12

Steady-read_fetch : (columns : List ColumnMeta) → Steady (read_fetch columns)
unfolding read_fetch
Steady-read_fetch columns = search (steady_rules, Steady-read_tuples) depth 12

Steady-read_last_id_cell : (size : ℕ) → Steady (read_last_id_cell size)
unfolding read_last_id_cell
Steady-read_last_id_cell size = search steady_rules depth 14

Steady-read_last_id : (size : ℤ) → Steady (read_last_id size)
unfolding read_last_id
Steady-read_last_id (negsuc zero) = search steady_rules
Steady-read_last_id (negsuc (suc n)) = Steady-throw malformed_reply tt
Steady-read_last_id (pos zero) = Steady-throw malformed_reply tt
Steady-read_last_id (pos (suc n)) = search (steady_rules, Steady-read_last_id_cell) depth 10

-- Whatever the bytes of a reply to PREPARE, PREPARE_AND_EXECUTE, EXECUTE, FETCH or
-- GET_LAST_INSERT_ID: its parser returns a value, or throws an unsupported value, a malformed reply
-- or the server's own error.
pub replies-IsDecided :
    (data_bytes : List ℕ) (statement : PrepareResult) (columns : List ColumnMeta) (version : ℕ)
    → IsDecided (parse_prepare data_bytes)
      × IsDecided (parse_prepare_and_execute data_bytes version)
      × IsDecided (parse_execute data_bytes statement version)
      × IsDecided (parse_fetch data_bytes columns)
      × IsDecided (parse_get_last_insert_id data_bytes)
unfolding parse_prepare parse_prepare_and_execute parse_execute parse_fetch parse_get_last_insert_id
replies-IsDecided data_bytes statement columns version = (
  parse_reply-IsDecided data_bytes _ Steady-read_prepare_info,
  parse_reply-IsDecided data_bytes _ (Steady-read_execute_reply version),
  parse_reply-IsDecided data_bytes _ (λ c. Steady-read_execution statement c version true),
  parse_reply-IsDecided data_bytes _ (λ _. Steady-read_fetch columns),
  parse_reply-IsDecided data_bytes _ (λ _. Steady-bind Steady-parse_int Steady-read_last_id),
)
