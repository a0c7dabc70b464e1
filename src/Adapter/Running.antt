-- ===== src/Adapter/Running.antt =====
-- runStatement of src/adapters/native.ts: one statement, from the checks of its turn to the release
-- of its handle.
use cubrid_client.Base.{
  ℕ, Bool, true, not, ◌&&◌, ◌||◌, List, [], ◌∷◌, ◌==◌, if◌then◌else◌, Option, some, none, pos,
}
use cubrid_client.Bind.{PreparedBinds}
use cubrid_client.Failure.{Result, error}
use cubrid_client.Errors.{failure, connection_lost, is_given}
use cubrid_client.Param.{Param}
use cubrid_client.Request.{Frame, write_prepare, write_prepare_and_execute}
use cubrid_client.Reply.Execute.{PrepareAndExecuteResult, parse_prepare_and_execute}
use cubrid_client.Sql.Scan.{interpolate_params}
use cubrid_client.Session.World.{Step, returned, raised}
use cubrid_client.Session.Exchange.{ensure_session, send_and_recv, discard_session}
use cubrid_client.Adapter.{
  Adapter, Turned, Turn, done, threw, then_turn, at_world, transaction_ended, drop_if_ended,
  assert_session, bind_transaction_session,
}
use cubrid_client.Adapter.Turns.{
  Platform, ◌>>=◌, ◌>>◌, give, refuse, lifted, catching, the_cas, on_cas, change, do_if,
}
use cubrid_client.Adapter.Handle.{with_query_handle, execute_handle, end_statement_transaction}
use cubrid_client.Adapter.Escapes.{needs_backslash_mode, ensure_backslash_mode}

-- `IssuedOn`: the connection object and its failed exchanges when the call was made.
pub record IssuedOn : Type 0 where
  pub connection : ℕ
  pub failed_exchanges : ℕ

-- What a caller asks for. No parameters are the same as none given.
pub record StatementCall : Type 0 where
  pub sql : List ℕ
  pub params : List Param
  pub issued : IssuedOn
  pub binds : Option PreparedBinds

-- An exchange has failed since the call was made.
abbrev pub is_stale : IssuedOn → Adapter → Bool
is_stale issued a =
    a.connection == issued.connection
    && not (a.world.cas.failed_exchanges == issued.failed_exchanges)

abbrev pub refuse_stale : IssuedOn → Turn (Unit {0})
refuse_stale issued a = if is_stale issued a then threw (failure error) a else done tt a

-- Whether the statement ends by END_TRAN.
abbrev pub defers : Bool → Option PreparedBinds → Adapter → Bool
defers commit_after binds a = (commit_after || is_given binds) && a.auto_commit

-- The request of the statement, by whether it has binds.
abbrev pub statement_request : Option PreparedBinds → List ℕ → Bool → List ℕ → Result Frame
statement_request none sql auto_commit cas_info = write_prepare_and_execute sql auto_commit cas_info
statement_request (some binds) sql auto_commit cas_info = write_prepare sql cas_info

-- Before the first statement of a transaction a ping may say OUT_TRAN.
abbrev pub note_end_replies : Adapter → Adapter
note_end_replies a = record a {
  transaction_end_replies =
      (if not a.auto_commit && not (is_given a.transaction_generation)
        then some a.world.cas.out_of_transaction_replies
        else a.transaction_end_replies);
}

-- Replies behind the statement's own may have said that the transaction is over.
unfoldable pub refuse_ended : Turn (Unit {0})
refuse_ended a =
    if transaction_ended a
    then then_turn (at_world a (discard_session a.world)) (λ _. threw connection_lost)
    else done tt a

module _ (p : Platform) where
  -- Up to the request.
  unfoldable pub settle_statement : IssuedOn → Turn (Unit {0})
  settle_statement issued = do
    drop_if_ended
    assert_session
    refuse_stale issued
    on_cas (ensure_session p.network p.config)

  abbrev pub interpolated : List ℕ → List Param → Turn (List ℕ)
  interpolated sql params = do
    mode ← (λ a. if needs_backslash_mode params then ensure_backslash_mode p a else done true a)
    lifted (interpolate_params p.number_text sql params mode)

  -- `resolvedSql`.
  unfoldable pub resolve_sql : List ℕ → List Param → Option PreparedBinds → Turn (List ℕ)
  resolve_sql sql params (some binds) = give sql
  resolve_sql sql [] none = give sql
  resolve_sql sql (q ∷ qs) none = interpolated sql (q ∷ qs)

  abbrev pub decoded : Option PreparedBinds → List ℕ → ℕ → Turn PrepareAndExecuteResult
  decoded none payload generation = do
    c ← the_cas
    lifted (parse_prepare_and_execute payload c.proto_version)
  decoded (some binds) payload generation = execute_handle p payload binds generation

  -- What fails in it is dropped.
  abbrev pub roll_back : ℕ → Turn (Unit {0})
  roll_back generation a =
      catching (end_statement_transaction p (pos 2) generation a) (λ _. give tt)

module _ {ℓ} {A : Type ℓ} (p : Platform) (body : PrepareAndExecuteResult → Turn A)
    (binds : Option PreparedBinds) (deferred : Bool) where
  -- While the handle is open.
  unfoldable pub consume : List ℕ → ℕ → Turn A
  consume payload generation = do
    bind_transaction_session
    result ← decoded p binds payload generation
    value ← body result
    do_if deferred (end_statement_transaction p (pos 1) generation)
    give value

  -- From the reply on.
  unfoldable pub after_reply : List ℕ → ℕ → Turn A
  unfolding consume refuse_ended
  after_reply payload generation = do
    value ← with_query_handle p payload (consume payload generation)
    refuse_ended
    give value

  -- The `catch` block.
  abbrev pub undo : ℕ → Turned A → Turned A
  undo generation (done x a) = done x a
  undo generation (threw e a) =
      then_turn (do_if deferred (roll_back p generation) a) (λ _. refuse e)

  abbrev pub received_statement : Adapter → Step (List ℕ) → Turned A
  received_statement a (returned payload w) =
      undo w.cas.generation (after_reply payload w.cas.generation (record a { world = w }))
  received_statement a (raised e w) = undo a.world.cas.generation (threw e (record a { world = w }))

  -- From the request on.
  unfoldable pub exchange_statement : Frame → Turn A
  unfolding after_reply
  exchange_statement f a = received_statement a (send_and_recv p.network p.config f a.world)

module _ (p : Platform) where
  -- `runStatement`.
  unfoldable pub run_statement {ℓ} :
      {A : Type ℓ} → StatementCall → Bool → (PrepareAndExecuteResult → Turn A) → Turn A
  unfolding settle_statement resolve_sql exchange_statement
  run_statement call commit_after body = do
    settle_statement p call.issued
    sql ← resolve_sql p call.sql call.params call.binds
    deferred ← (λ a. done (defers commit_after call.binds a) a)
    f ← (λ a.
        lifted
          (statement_request call.binds sql (a.auto_commit && not deferred) a.world.cas.cas_info) a)
    change note_end_replies
    exchange_statement p body call.binds deferred f
