-- ===== src/Client.antt =====
-- The connections of a CubridClient (src/client/client.ts). A call is one step, as its awaits run in
-- order: the shared connection is opened by the first call that needs it, and a transaction with a
-- callback has a connection of its own. How a CallbackTransaction comes to stand as it does is not told
-- here but in Transaction. Calls do not overlap, options of a transaction are valid, and
-- schema lookups and streams are left out.
use cubrid_client.Base.{
  ℕ, ◌+◌, Bool, true, false, ◌&&◌, ◌||◌, List, [], ◌∷◌, if◌then◌else◌, Option, some, none,
}
use cubrid_client.Failure.{error}
use cubrid_client.Errors.{
  Thrown, failure, connection, query, transaction, ErrorKind, map_error, is_read_timeout, to_error,
}
pub mod Held
pub mod Tidy
pub mod Ends
pub mod Whole

-- What is asked of a connection: the factory makes it, and the rest are its methods. `run_callback`
-- is the callback of a transaction, with what it asks of the connection itself.
pub data Method : Type 0 where
  create set_options query_it query_result_it execute_it query_prepared_it query_result_prepared_it
        execute_prepared_it ping_it begin_it commit_it rollback_it run_callback close_it :
      Method

-- The methods that every connection has.
abbrev pub is_required : Method → Bool
is_required set_options = false
is_required query_result_it = false
is_required execute_it = false
is_required query_prepared_it = false
is_required query_result_prepared_it = false
is_required execute_prepared_it = false
is_required ping_it = false
is_required _ = true

pub record ConnectionCall : Type 0 where
  pub on : ℕ
  pub method : Method

pub record Client : Type 0 where
  pub closed : Bool
  -- `sharedConnectionPromise`.
  pub shared : Option ℕ
  -- How many connections the factory has made, and all calls, the last one first.
  pub made_count : ℕ
  pub log : List ConnectionCall

-- The constructor.
abbrev pub new_client : Client
new_client = record { closed = false; shared = none; made_count = 0; log = [] }

-- How the CallbackTransaction stands when the callback is done: still open, open with a rejected
-- query that nobody awaited, or completed by the callback itself, which may have failed.
pub data Standing : Type 0 where
  still_open : Standing
  unawaited : Thrown → Standing
  completed_itself : Standing
  completion_failed : Thrown → Standing

-- The connections: which call fails, by what came before it; whether a method is there at all; how
-- the transaction stands behind the callback, and why its rollback failed if it did.
pub record Connections : Type 0 where
  pub fails : List ConnectionCall → ConnectionCall → Option Thrown
  pub supports : Method → Bool
  pub standing : List ConnectionCall → Standing
  pub rollback_failure : List ConnectionCall → Option Thrown

pub data Did : Type 0 where
  fine : Client → Did
  refused : Thrown → Client → Did

-- What a transaction reports: a failure can carry those of the rollback and of close.
pub data Ran : Type 0 where
  returned : Client → Ran
  raised : Thrown → Option Thrown → Option Thrown → Client → Ran

abbrev pub then_did : Did → (Client → Did) → Did
then_did (fine c) f = f c
then_did (refused e c) f = refused e c

abbrev pub did_of : Option Thrown → Client → Did
did_of none c = fine c
did_of (some e) c = refused e c

abbrev pub client_of : Did → Client
client_of (fine c) = c
client_of (refused e c) = c

abbrev pub logged : ℕ → Method → Client → Client
logged n m c = record c { log = record { on = n; method = m } ∷ c.log }

abbrev pub map_refusal : ErrorKind → Did → Did
map_refusal kind (fine c) = fine c
map_refusal kind (refused e c) = refused (map_error kind e) c

module _ (k : Connections) where
  abbrev pub call : ℕ → Method → Client → Did
  call n m c = did_of (k.fails c.log (record { on = n; method = m })) (logged n m c)

  -- A method that a connection may not have.
  abbrev pub optional_call : ℕ → Method → Client → Did
  optional_call n m c =
      if k.supports m || is_required m then call n m c else refused (failure error) c

  -- `applyTransactionOptions`: nothing is asked of the connection without options.
  unfoldable pub apply_transaction_options : Bool → ℕ → Client → Did
  apply_transaction_options given n c = if given then optional_call n set_options c else fine c

  abbrev pub made : Option Thrown → Client → Did
  made none c = fine (record (logged c.made_count create c) { made_count = c.made_count + 1 })
  made (some e) c = refused e (logged c.made_count create c)

  -- `connectionFactory`: the new connection is the one numbered by `made_count` before.
  unfoldable pub make_connection : Client → Did
  make_connection c = made (k.fails c.log (record { on = c.made_count; method = create })) c

  abbrev pub kept_or_closed : ℕ → Did → Did
  kept_or_closed n (fine c) = fine (record c { shared = some n })
  kept_or_closed n (refused e c) = refused e (record (logged n close_it c) { shared = none })

  -- `prepareSharedConnection`: one that does not take the options is closed.
  unfoldable pub prepare_shared_connection : Bool → ℕ → Client → Did
  unfolding apply_transaction_options
  prepare_shared_connection given n c = kept_or_closed n (apply_transaction_options given n c)

  abbrev pub shared_or_new : Bool → Option ℕ → Client → Did
  shared_or_new given (some n) c = fine c
  shared_or_new given none c =
      then_did (make_connection c) (prepare_shared_connection given c.made_count)

  -- `getSharedConnection`.
  unfoldable pub get_shared_connection : Bool → Client → Did
  unfolding make_connection prepare_shared_connection
  get_shared_connection given c =
      if c.closed then refused (failure error) c else shared_or_new given c.shared c

  abbrev pub on_shared : Option ℕ → Method → Client → Did
  on_shared none m c = fine c
  on_shared (some n) m c = optional_call n m c

  -- A call that goes to the shared connection, as query, execute, ping, beginTransaction, commit and
  -- rollback do.
  unfoldable pub use_shared : Bool → ErrorKind → Method → Client → Did
  unfolding get_shared_connection
  use_shared given kind m c =
      map_refusal kind (then_did (get_shared_connection given c) (λ d. on_shared d.shared m d))

  -- The failure of a transaction, and what abort says of its rollback: only a TransactionError
  -- carries it.
  abbrev pub carried : Thrown → Option Thrown → Option Thrown
  carried e other = if is_read_timeout e then none else other

  abbrev pub error_of : Option Thrown → Option Thrown
  error_of none = none
  error_of (some e) = some (to_error e)

  -- The `finally` block, behind a success and behind a failure.
  abbrev pub close_after : ℕ → Client → Ran
  close_after n c = elim (call n close_it c) [
    | fine d ↦ returned d
    | refused e d ↦ raised e none none d
  ]

  abbrev pub close_failed : ℕ → Thrown → Option Thrown → Client → Ran
  close_failed n e undo c =
      raised (map_error transaction e) (carried (map_error transaction e) undo)
        (carried (map_error transaction e)
          (error_of (k.fails c.log (record { on = n; method = close_it }))))
        (logged n close_it c)

  -- `runCommit`: a commit that is refused is followed by a rollback.
  abbrev pub run_commit : ℕ → Client → Did
  run_commit n c = elim (call n commit_it c) [
    | fine d ↦ fine d
    | refused e d ↦ refused e (logged n rollback_it d)
  ]

  -- `CallbackTransaction.finish`.
  unfoldable pub finish_transaction : ℕ → Standing → Client → Did
  finish_transaction n still_open c = run_commit n c
  finish_transaction n (unawaited e) c = refused e (logged n rollback_it c)
  finish_transaction n completed_itself c = fine c
  finish_transaction n (completion_failed e) c = refused e c

  -- `CallbackTransaction.abort`, behind a callback that failed.
  unfoldable pub abort_transaction : ℕ → Standing → Client → Client
  abort_transaction n still_open c = logged n rollback_it c
  abort_transaction n (unawaited e) c = logged n rollback_it c
  abort_transaction n completed_itself c = c
  abort_transaction n (completion_failed e) c = c

  -- Behind `finish`. Where it failed, the transaction is complete, and `abort` asks nothing more.
  abbrev pub transaction_finished : ℕ → Did → Ran
  transaction_finished n (fine c) = close_after n c
  transaction_finished n (refused e c) = close_failed n e (k.rollback_failure c.log) c

  -- Behind the callback.
  unfoldable pub callback_done : ℕ → Did → Ran
  unfolding finish_transaction abort_transaction
  callback_done n (fine c) = transaction_finished n (finish_transaction n (k.standing c.log) c)
  callback_done n (refused e c) =
      let d = abort_transaction n (k.standing c.log) c in
      close_failed n e (k.rollback_failure d.log) d

  abbrev pub transaction_begun : ℕ → Did → Ran
  transaction_begun n (fine c) = callback_done n (call n run_callback c)
  transaction_begun n (refused e c) = close_failed n e none c

  abbrev pub on_own : ℕ → Bool → Did → Ran
  on_own n given (refused e c) = raised e none none c
  on_own n given (fine c) =
      transaction_begun n (then_did (apply_transaction_options given n c) (call n begin_it))

  -- `transaction`, with a connection of its own.
  unfoldable pub run_transaction : Bool → Client → Ran
  unfolding make_connection apply_transaction_options callback_done
  run_transaction given c =
      if c.closed
      then raised (map_error transaction (failure error)) none none c
      else on_own c.made_count given (make_connection c)

  abbrev pub close_shared : Option ℕ → Client → Did
  close_shared none c = fine c
  close_shared (some n) c = elim (call n close_it c) [
    | fine d ↦ fine (record d { shared = none })
    | refused e d ↦ refused (map_error connection e) d
  ]

  -- `close`: a connection that fails to close is kept, to be closed again.
  unfoldable pub close_client : Client → Did
  close_client c = close_shared c.shared (record c { closed = true })

-- The statements of the client.
pub data ClientStatement : Type 0 where
  query_call query_result_call execute_call query_prepared_call query_result_prepared_call
        execute_prepared_call :
      ClientStatement

abbrev pub statement_method : ClientStatement → Method
statement_method query_call = query_it
statement_method query_result_call = query_result_it
statement_method execute_call = execute_it
statement_method query_prepared_call = query_prepared_it
statement_method query_result_prepared_call = query_result_prepared_it
statement_method execute_prepared_call = execute_prepared_it

-- beginTransaction, commit and rollback.
pub data TransactionCall : Type 0 where
  begin_call commit_call rollback_call : TransactionCall

abbrev pub transaction_method : TransactionCall → Method
transaction_method begin_call = begin_it
transaction_method commit_call = commit_it
transaction_method rollback_call = rollback_it

-- ping and getServerVersion.
pub data CheckCall : Type 0 where
  ping_call get_server_version_call : CheckCall

abbrev pub check_method : CheckCall → Method
check_method ping_call = ping_it
check_method get_server_version_call = ping_it

-- A call of the client. A transaction has options of its own, or none.
pub data ClientCall : Type 0 where
  stating : ClientStatement → ClientCall
  ending : TransactionCall → ClientCall
  checking : CheckCall → ClientCall
  transacting : Bool → ClientCall
  closing : ClientCall

abbrev pub client_after : Ran → Client
client_after (returned c) = c
client_after (raised e r x c) = c

unfoldable pub perform_call : Connections → Bool → ClientCall → Client → Client
unfolding use_shared run_transaction close_client
perform_call k given (stating x) c = client_of (use_shared k given query (statement_method x) c)
perform_call k given (ending x) c =
    client_of (use_shared k given transaction (transaction_method x) c)
perform_call k given (checking x) c = client_of (use_shared k given connection (check_method x) c)
perform_call k given (transacting wanted) c = client_after (run_transaction k (given || wanted) c)
perform_call k given closing c = client_of (close_client k c)

unfoldable pub perform_calls : Connections → Bool → List ClientCall → Client → Client
unfolding perform_call
perform_calls k given [] c = c
perform_calls k given (x ∷ xs) c = perform_calls k given xs (perform_call k given x c)
