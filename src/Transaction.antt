-- ===== src/Transaction.antt =====
-- CallbackTransaction (src/client/transaction.ts): one terminal outcome, whoever asks for it.
-- A query is a number. The asynchronous parts are events: a query settles, a rejected query has
-- been visible for its two microtask turns, the awaited queries are all settled, the connection
-- answers COMMIT or ROLLBACK. The order of events is arbitrary; one that cannot happen in a state
-- changes nothing. `rejectedQueries`, which only keeps a rejection from being reported as unhandled,
-- is left out.
pub mod Calls
pub mod Commit
use cubrid_client.Base.{
  ℕ, Bool, true, false, not, ◌&&◌, ◌||◌, List, [], ◌∷◌, ◌++◌, ◌==◌, if◌then◌else◌, Option, some,
  none, includes,
}

-- CallbackTransactionState.
pub data Phase : Type 0 where
  open_phase completing committed rolled_back failed : Phase

pub data Ending : Type 0 where
  commit rollback : Ending

-- A call of the connection.
pub data Call : Type 0 where
  statement : ℕ → Call
  end_tran : Ending → Call

-- Where `completion` stands: not started, awaiting the running queries, awaiting END_TRAN,
-- awaiting the rollback after a commit that was skipped or refused, or settled.
pub data Stage : Type 0 where
  idle : Stage
  settling ending : Ending → Stage
  undoing settled : Stage

pub record Tx : Type 0 where
  pub phase : Phase
  pub stage : Stage
  -- runningQueries, and justRejectedQueries.
  pub running : List ℕ
  pub just_rejected : List ℕ
  -- The queries that the completion awaits and that are still pending, and whether one was rejected.
  pub waiting : List ℕ
  pub any_rejected : Bool
  pub rollback_failure : Bool
  -- The calls of the connection, the last one first.
  pub calls : List Call

abbrev pub new_tx : Tx
new_tx = record {
  phase = open_phase;
  stage = idle;
  running = [];
  just_rejected = [];
  waiting = [];
  any_rejected = false;
  rollback_failure = false;
  calls = [];
}

-- `Set.delete`.
unfoldable pub delete : ℕ → List ℕ → List ℕ
delete q [] = []
delete q (x ∷ xs) = if x == q then xs else x ∷ delete q xs

abbrev pub is_open : Phase → Bool
is_open open_phase = true
is_open _ = false

abbrev pub is_empty : List ℕ → Bool
is_empty [] = true
is_empty (x ∷ xs) = false

-- `track`: a statement reaches the connection only while the transaction is open.
unfoldable pub track : ℕ → Tx → Tx
track q t =
    if is_open t.phase
    then record t { running = q ∷ t.running; calls = statement q ∷ t.calls }
    else t

-- A tracked query settles; a rejection stays visible for a while.
unfoldable pub settle : ℕ → Bool → Tx → Tx
unfolding delete
settle q ok t =
    if includes q t.running
    then record t {
      running = delete q t.running;
      waiting = delete q t.waiting;
      any_rejected = t.any_rejected || (includes q t.waiting && not ok);
      just_rejected = if ok then t.just_rejected else q ∷ t.just_rejected;
    }
    else t

unfoldable pub expire : ℕ → Tx → Tx
unfolding delete
expire q t = record t { just_rejected = delete q t.just_rejected }

-- `complete`, with the queries that `settleRunningQueries` finds: those still pending, and whether
-- it finds one that is rejected already.
unfoldable pub complete_with : Ending → Bool → Tx → Tx
complete_with e rejected t =
    if is_open t.phase
    then record t {
      phase = completing;
      stage = settling e;
      waiting = t.running;
      any_rejected = rejected;
    }
    else t

unfoldable pub complete : Ending → Tx → Tx
unfolding complete_with
complete e t = complete_with e false t

-- `finish`: a query that was rejected in the callback's last step counts as running.
unfoldable pub finish : Tx → Tx
unfolding complete_with
finish t = complete_with commit (not (is_empty t.just_rejected)) t

unfoldable pub abort : Tx → Tx
unfolding complete_with
abort t = complete_with rollback false t

-- What follows the awaited queries: a commit is skipped if one of them was rejected.
unfoldable pub after_queries : Stage → Tx → Tx
after_queries (settling commit) t =
    if t.any_rejected
    then record t { phase = failed; stage = undoing; calls = end_tran rollback ∷ t.calls }
    else record t { stage = ending commit; calls = end_tran commit ∷ t.calls }
after_queries (settling rollback) t = record t {
  stage = ending rollback;
  calls = end_tran rollback ∷ t.calls;
}
after_queries _ t = t

unfoldable pub all_settled : Tx → Tx
unfolding after_queries
all_settled t = if is_empty t.waiting then after_queries t.stage t else t

-- The connection's answer to the call that the completion awaits.
unfoldable pub answered_at : Stage → Bool → Tx → Tx
answered_at (ending commit) true t = record t { phase = committed; stage = settled }
answered_at (ending commit) false t = record t {
  phase = failed;
  stage = undoing;
  calls = end_tran rollback ∷ t.calls;
}
answered_at (ending rollback) true t = record t { phase = rolled_back; stage = settled }
answered_at (ending rollback) false t = record t {
  phase = failed;
  stage = settled;
  rollback_failure = true;
}
answered_at undoing ok t = record t { stage = settled; rollback_failure = not ok }
answered_at _ ok t = t

unfoldable pub answered : Bool → Tx → Tx
unfolding answered_at
answered ok t = answered_at t.stage ok t

pub data Event : Type 0 where
  track_event : ℕ → Event
  settle_event : ℕ → Bool → Event
  expire_event : ℕ → Event
  complete_event : Ending → Event
  finish_event abort_event all_settled_event : Event
  answered_event : Bool → Event

unfoldable pub step : Event → Tx → Tx
unfolding track settle expire complete finish abort all_settled answered
step (track_event q) t = track q t
step (settle_event q ok) t = settle q ok t
step (expire_event q) t = expire q t
step (complete_event e) t = complete e t
step finish_event t = finish t
step abort_event t = abort t
step all_settled_event t = all_settled t
step (answered_event ok) t = answered ok t

unfoldable pub run : List Event → Tx → Tx
run [] t = t
run (e ∷ es) t = run es (step e t)
