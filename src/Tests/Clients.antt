-- ===== src/Tests/Clients.antt =====
-- A client that queries, runs a transaction whose callback fails and one that succeeds, and closes.
use cubrid_client.Base.{
  ◌≡◌, refl, arith, Bool, true, false, ◌&&◌, ◌==◌, List, [], ◌∷◌, some, none, if◌then◌else◌,
}
use cubrid_client.Failure.{error}
use cubrid_client.Errors.{failure}
use cubrid_client.Client.{
  Method, run_callback, still_open, Client, Connections, close_client, client_of, client_after,
  run_transaction, ClientCall, stating, query_call, transacting, perform_calls, new_client,
}
use cubrid_client.Client.Held.{was_closed}
use cubrid_client.Client.Ends.{close_client-Closed, close_client-inert}
use cubrid_client.Client.Whole.{Closed, up_to_callback, run_transaction-Succeeded}

abbrev is_callback : Method → Bool
is_callback run_callback = true
is_callback _ = false

-- The callback fails on the second connection.
abbrev connections : Connections
connections = record {
  fails = λ log x. if x.on == 1 && is_callback x.method then some (failure error) else none;
  supports = λ m. true;
  standing = λ log. still_open;
  rollback_failure = λ log. none;
}

abbrev calls : List ClientCall
calls = stating query_call ∷ transacting true ∷ transacting false ∷ []

abbrev before_close : Client
unfolding perform_calls
before_close = perform_calls connections true calls new_client

abbrev after_close : Client
unfolding close_client
after_close = client_of (close_client connections before_close)

close_client-Closed_example : was_closed 1 after_close.log ≡ true
unfolding perform_calls close_client
close_client-Closed_example =
    close_client-Closed connections true calls after_close refl 1 (omega arith)

close_client-inert_example : perform_calls connections true calls after_close ≡ after_close
unfolding perform_calls close_client
close_client-inert_example = close_client-inert connections before_close after_close true calls refl

abbrev after_transaction : Client
unfolding run_transaction
after_transaction = client_after (run_transaction connections true before_close)

run_transaction-Succeeded_example :
    (before_close.closed ≡ false)
    × Closed connections before_close.log before_close.made_count
        (up_to_callback true before_close.made_count before_close)
        after_transaction
unfolding perform_calls run_transaction
run_transaction-Succeeded_example =
    run_transaction-Succeeded connections true before_close after_transaction refl
