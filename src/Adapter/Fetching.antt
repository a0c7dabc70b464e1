-- ===== src/Adapter/Fetching.antt =====
-- fetchRemaining and fetchWindow of src/adapters/native.ts: the rows of a result behind those that
-- its first reply brought.
pub mod Exact
use cubrid_client.Base.{
  ℕ, zero, suc, ◌+◌, ◌-◌, Bool, true, false, not, ◌||◌, List, ◌++◌, ltb, ◌==◌, if◌then◌else◌,
  Option, some, none, ℤ, pos, length, ◌==ℤ◌, leb_ℤ, ltb_ℤ, ◌+ℤ◌, pos_part,
}
use cubrid_client.Failure.{error, diverges}
use cubrid_client.Errors.{failure, connection_lost}
use cubrid_client.Request.{write_fetch}
use cubrid_client.Reply.Execute.{PrepareAndExecuteResult, FetchResult, parse_fetch}
use cubrid_client.Rows.{Row}
use cubrid_client.Session.Exchange.{send_and_recv_on_session}
use cubrid_client.Adapter.{Turned, Turn, done, threw}
use cubrid_client.Adapter.Turns.{
  Platform, or_default, ◌>>=◌, ◌>>◌, give, refuse, lifted, the_cas, on_cas, answered_or_lost,
}

abbrev pub default_fetch_size : ℕ
default_fetch_size = 100

-- The rows of a FETCH reply, if it keeps what the result has promised.
unfoldable pub checked_rows : ℤ → ℕ → FetchResult → Turn (List Row)
checked_rows total fetched window =
    if leb_ℤ window.tuple_count (pos 0)
    then refuse (failure error)
    else if not (pos (length window.rows) ==ℤ window.tuple_count)
        || ltb_ℤ total (pos fetched +ℤ window.tuple_count)
    then refuse (failure error)
    else give window.rows

module _ (p : Platform) (generation : ℕ) (result : PrepareAndExecuteResult) (fetch_size : ℕ) where
  unfoldable pub fetch_window : ℕ → Turn (List Row)
  unfolding checked_rows
  fetch_window fetched = do
    c ← the_cas
    f ← lifted (write_fetch result.statement.query_handle (pos fetched) (pos fetch_size) c.cas_info)
    reply ← on_cas (send_and_recv_on_session p.network generation f)
    payload ← answered_or_lost reply
    window ← lifted (parse_fetch payload result.statement.columns)
    checked_rows result.total_tuple_count fetched window

  -- The loop of `fetchRemaining`, with all rows so far, on fuel.
  unfoldable pub fetch_rest : ℕ → List Row → Turn (List Row)
  unfolding fetch_window
  fetch_rest zero rows a = threw (failure diverges) a
  fetch_rest (suc fuel) rows a =
      if ltb_ℤ (pos (length rows)) result.total_tuple_count
      then (do window ← fetch_window (length rows); fetch_rest fuel (rows ++ window)) a
      else done rows a

-- `fetchRemaining`. Every window brings a row, so there is one round more than rows to come.
unfoldable pub fetch_remaining : Platform → PrepareAndExecuteResult → List Row → Turn (List Row)
unfolding fetch_rest
fetch_remaining p result rows = do
  c ← the_cas
  fetch_rest p c.generation result (or_default p.fetch_size default_fetch_size)
      (suc (pos_part result.total_tuple_count - length rows)) rows
