-- ===== src/Adapter/Calls.antt =====
-- What a turn of the statement queue does for execute, query and ping: executeNow, queryNow,
-- executeQuery, queryFailure and pingNow of src/adapters/native.ts, and what they do on a failure.
use cubrid_client.Base.{
  ℕ, Bool, true, false, not, ◌&&◌, ◌||◌, List, [], ◌∷◌, if◌then◌else◌, some, pos, ◌==ℤ◌, length,
  ltb_ℤ,
}
use cubrid_client.Bind.{PreparedBinds, encode_prepared_params}
use cubrid_client.Columns.{ColumnMeta}
use cubrid_client.Constants.{CubridDataType, type_null, type_blob, type_clob, statement_select}
use cubrid_client.Failure.{Result, ok, fail}
use cubrid_client.Errors.{connection, query, map_error, is_given}
use cubrid_client.Param.{Param}
use cubrid_client.Request.{assert_preparable_sql}
use cubrid_client.Reply.Execute.{PrepareAndExecuteResult}
use cubrid_client.Rows.{Row}
use cubrid_client.Session.Exchange.{is_connected, ping}
use cubrid_client.Adapter.{Adapter, Turned, Turn, done, threw, record_abort, connect_if_needed}
use cubrid_client.Adapter.Turns.{Platform, ◌>>=◌, ◌>>◌, give, the_cas, on_cas, change, do_if}
use cubrid_client.Adapter.Fetching.{fetch_remaining}
use cubrid_client.Adapter.Lobs.{load_lobs}
use cubrid_client.Adapter.InsertId.{
  forget_insert_id, is_select, some_info, ExecuteResult, read_insert_id_baseline,
  read_execute_result,
}
use cubrid_client.Adapter.Running.{StatementCall, run_statement}

-- `mayHoldLob`: a column of the type NULL states each cell's type in the cell.
unfoldable pub may_hold_lob : CubridDataType → Bool
may_hold_lob type_blob = true
may_hold_lob type_clob = true
may_hold_lob type_null = true
may_hold_lob _ = false

abbrev pub any_lob : List ColumnMeta → Bool
any_lob [] = false
any_lob (column ∷ columns) = may_hold_lob column.type || any_lob columns

-- The rows with their columns' descriptions, from which `toColumnInfo` takes what a caller sees.
pub record QueryResult : Type 0 where
  pub rows : List Row
  pub columns : List ColumnMeta

-- `bindSessionLostByFirstStatement`.
abbrev pub bind_lost : Adapter → Adapter
bind_lost a = record a {
  transaction_generation =
      (if not a.auto_commit
          && (not (is_given a.transaction_generation) && not (is_connected a.world.cas))
        then some a.world.cas.generation
        else a.transaction_generation);
}

-- `queryFailure`, and the `catch` blocks of executeNow and queryNow.
abbrev pub failed_call {ℓ} : {A : Type ℓ} → Turned A → Turned A
failed_call (done x a) = done x a
failed_call (threw e a) =
    threw (map_error query e) (record_abort e (bind_lost (forget_insert_id a)))

-- `bindOrRefuse`, before the turn.
unfoldable pub bind_or_refuse : List ℕ → List Param → Result PreparedBinds
bind_or_refuse sql params = elim (assert_preparable_sql sql) [
  | fail e ↦ fail e
  | ok u ↦ encode_prepared_params params
]

module _ (p : Platform) where
  abbrev pub remaining_rows : PrepareAndExecuteResult → Turn (List Row)
  remaining_rows result a =
      if ltb_ℤ (pos (length result.rows)) result.total_tuple_count
      then fetch_remaining p result result.rows a
      else done result.rows a

  abbrev pub lobs_loaded : ℕ → PrepareAndExecuteResult → List Row → Bool → Turn (List Row)
  lobs_loaded generation result rows ends_read a =
      if any_lob result.statement.columns
      then load_lobs p generation rows ends_read a
      else done rows a

  abbrev pub read_select : Bool → PrepareAndExecuteResult → Turn QueryResult
  read_select ends_read result = do
    c ← the_cas
    rows ← remaining_rows result
    loaded ← lobs_loaded c.generation result rows ends_read
    give (record { rows = loaded; columns = result.statement.columns })

  -- `read` in `executeQuery`: only a SELECT has rows, and another statement may have generated an id.
  unfoldable pub read_query : Bool → PrepareAndExecuteResult → Turn QueryResult
  unfolding may_hold_lob
  read_query ends_read result = do
    do_if (some_info (λ info. not (is_select info)) result.result_infos) (change forget_insert_id)
    (λ a.
        if result.statement.statement_type ==ℤ pos statement_select
        then read_select ends_read result a
        else done (record { rows = []; columns = [] }) a)

  -- `executeNow`.
  unfoldable pub execute_now : StatementCall → Turn ExecuteResult
  execute_now call a =
      failed_call (
        (do read_insert_id_baseline p call.sql; run_statement p call true (read_execute_result p))
          a)

  -- `queryNow` with `executeQuery`.
  unfoldable pub query_now : StatementCall → Turn QueryResult
  unfolding read_query
  query_now call a =
      failed_call (run_statement p call false (read_query (not (is_given call.binds))) a)

  abbrev pub failed_ping : Turned (List ℕ) → Turned (List ℕ)
  failed_ping (done x a) = done x a
  failed_ping (threw e a) = threw (map_error connection e) a

  -- `pingNow`.
  unfoldable pub ping_now : Turn (List ℕ)
  ping_now a = failed_ping (
      (do
        connect_if_needed p.network p.config
        (λ b. on_cas (ping p.network p.config (not b.auto_commit)) b))
        a)
