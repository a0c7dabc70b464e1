-- ===== src/Tests/Transactions.antt =====
-- Runs of src/client/transaction.ts.
use cubrid_client.Base.{◌≡◌, refl, true, false, List, [], ◌∷◌}
use cubrid_client.Transaction.{
  Event, track_event, settle_event, finish_event, all_settled_event, answered_event, abort_event,
  commit, statement, end_tran, step, run, new_tx, settle, finish,
}
use cubrid_client.Transaction.Calls.{HasShape, run_shape}
use cubrid_client.Transaction.Commit.{NoCommit, rejected_query-NoCommit, just_rejected-NoCommit}

-- Two queries, one of them not awaited; the callback resolves.
abbrev resolving : List Event
resolving = track_event 1 ∷ settle_event 1 true ∷ track_event 2 ∷ finish_event ∷ []

abbrev rejected_before : List Event
rejected_before = track_event 1 ∷ settle_event 1 false ∷ []

abbrev ending_events : List Event
ending_events = all_settled_event ∷ answered_event true ∷ abort_event ∷ []

commits :
    (run (track_event 1 ∷ settle_event 1 true ∷ finish_event ∷ ending_events) new_tx).calls
    ≡ end_tran commit ∷ statement 1 ∷ []
unfolding run step
commits = refl

run_shape_example : HasShape (run resolving new_tx)
run_shape_example = run_shape resolving

rejected_query-NoCommit_example :
    NoCommit (run ending_events (settle 2 false (run resolving new_tx))).calls
unfolding run step
rejected_query-NoCommit_example =
    rejected_query-NoCommit resolving ending_events commit 2 refl refl refl

just_rejected-NoCommit_example :
    NoCommit (run ending_events (finish (run rejected_before new_tx))).calls
unfolding run step
just_rejected-NoCommit_example = just_rejected-NoCommit rejected_before ending_events refl refl
