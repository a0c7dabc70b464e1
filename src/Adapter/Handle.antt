-- ===== src/Adapter/Handle.antt =====
-- A query handle from the reply that brings it to its release: withQueryHandle, closeQueryHandle,
-- executeHandle, exchangeOnSession and endStatementTransaction of src/adapters/native.ts.
use cubrid_client.Base.{ℕ, not, List, Option, some, none, ℤ, pos, ◌==ℤ◌}
use cubrid_client.Bind.{PreparedBinds}
use cubrid_client.Failure.{error}
use cubrid_client.Errors.{failure, connection_lost}
use cubrid_client.Request.{Frame, write_close_req_handle, write_end_tran, write_execute}
use cubrid_client.Reply.Simple.{parse_simple_response}
use cubrid_client.Reply.Execute.{
  PrepareAndExecuteResult, parse_prepare, parse_execute, read_query_handle,
}
use cubrid_client.Session.Exchange.{discard_session, send_and_recv_on_session, release_on_session}
use cubrid_client.Adapter.{Turned, Turn}
use cubrid_client.Adapter.Turns.{
  Platform, ◌>>=◌, ◌>>◌, give, refuse, lifted, catching, finally, the_cas, on_cas, do_if,
  is_malformed, check_reply, answered_or_lost,
}

-- A damaged reply drops the session.
abbrev pub dropping_damaged {ℓ} : {A : Type ℓ} → Turned A → Turned A
dropping_damaged s = catching s (λ e. do do_if (is_malformed e) (on_cas discard_session); refuse e)

module _ (p : Platform) where
  -- The release of a handle; whatever fails is dropped.
  unfoldable pub release_handle : ℤ → ℕ → Turn (Unit {0})
  release_handle query_handle generation = do
    c ← the_cas
    f ← lifted (write_close_req_handle query_handle c.cas_info)
    reply ← on_cas (release_on_session p.network generation f)
    check_reply reply

  -- `closeQueryHandle`.
  unfoldable pub close_query_handle : ℤ → ℕ → Turn (Unit {0})
  unfolding release_handle
  close_query_handle query_handle generation a =
      catching (release_handle query_handle generation a) (λ e. give tt)

  abbrev pub close_if_open : Option ℤ → ℕ → Turn (Unit {0})
  close_if_open none generation = give tt
  close_if_open (some query_handle) generation = close_query_handle query_handle generation

  -- `withQueryHandle`: the handle is released on the session that was there at the start.
  unfoldable pub with_query_handle {ℓ} : {A : Type ℓ} → List ℕ → Turn A → Turn A
  with_query_handle response body a =
      finally (dropping_damaged (body a))
        (close_if_open (read_query_handle response) a.world.cas.generation)

  -- `exchangeOnSession`.
  unfoldable pub exchange_on_session : ℕ → Frame → Turn (List ℕ)
  exchange_on_session generation f = do
    reply ← on_cas (send_and_recv_on_session p.network generation f)
    answered_or_lost reply

  -- `executeHandle`: EXECUTE of what a PREPARE reply describes.
  unfoldable pub execute_handle : List ℕ → PreparedBinds → ℕ → Turn PrepareAndExecuteResult
  unfolding exchange_on_session
  execute_handle prepare_reply binds generation = do
    statement ← lifted (parse_prepare prepare_reply)
    do_if (not (statement.bind_count ==ℤ pos binds.count)) (refuse (failure error))
    c ← the_cas
    f ←
        lifted
          (write_execute statement.query_handle statement.statement_type binds.bytes c.cas_info)
    reply ← exchange_on_session generation f
    after ← the_cas
    lifted (parse_execute reply statement after.proto_version)

  abbrev pub ended_or_lost : ℤ → Option (List ℕ) → Turn (Unit {0})
  ended_or_lost type none = do_if (type ==ℤ pos 1) (refuse connection_lost)
  ended_or_lost type (some payload) = lifted (parse_simple_response payload)

  -- `endStatementTransaction`: 1 commits, 2 rolls back.
  unfoldable pub end_statement_transaction : ℤ → ℕ → Turn (Unit {0})
  end_statement_transaction type generation = do
    c ← the_cas
    f ← lifted (write_end_tran type c.cas_info)
    reply ← on_cas (send_and_recv_on_session p.network generation f)
    ended_or_lost type reply
