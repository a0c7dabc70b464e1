-- ===== src/Adapter.antt =====
-- The transactions of a NativeCubridAdapter (src/adapters/native.ts) over the session of its
-- CASConnection. The statement queue runs one of these at a time. A connection that was not created
-- yet is one that is not connected.

pub mod Commit
pub mod Bound
pub mod Turns
pub mod Handle
pub mod Fetching
pub mod Lobs
pub mod InsertId
pub mod Escapes
pub mod Running
pub mod Calls
pub mod Kept
pub mod Keeping
pub mod KeepingLobs
pub mod KeepingCalls
pub mod Joining
pub mod Transacted
pub mod History
pub mod Ending
pub mod Consuming
pub mod Deferred
pub mod Asking
pub mod Damaged
use cubrid_client.Base.{
  ℕ, Bool, true, false, not, ◌&&◌, ◌||◌, ◌==◌, if◌then◌else◌, Option, some, none, ℤ, pos, List,
}
use cubrid_client.Failure.{error}
use cubrid_client.Errors.{
  Thrown, failure, connection_lost, caused, transaction, map_error, is_server_transaction_abort,
  is_given,
}
use cubrid_client.Request.{write_end_tran}
use cubrid_client.Reply.Simple.{parse_simple_response}
use cubrid_client.Session.World.{
  World, Network, Step, returned, raised, Act, then_do, ◌>>=◌, ◌>>◌, give, lift, get_cas,
}
use cubrid_client.Session.Opening.{CasConfig, connect_unlocked}
use cubrid_client.Session.Exchange.{send_and_recv, discard_session, is_connected}

-- `insertIdBaseline`: undefined, null, or a text.
pub data Baseline : Type 0 where
  no_value unknown : Baseline
  seen : List ℕ → Baseline

pub record Adapter : Type 0 where
  pub world : World
  pub auto_commit : Bool
  pub transaction_generation : Option ℕ
  pub transaction_end_replies : Option ℕ
  pub transaction_abort : Option Thrown
  -- The number of the CASConnection object: a closed one is replaced by the next.
  pub connection : ℕ
  pub no_backslash_escapes : Option Bool
  pub backslash_mode_generation : Option ℕ
  pub insert_id_baseline : Baseline
  pub insert_id_generation : Option ℕ

-- How a turn of the statement queue ends.
pub data Turned {ℓ} (A : Type ℓ) : Type ℓ where
  done : A → Adapter → Turned A
  threw : Thrown → Adapter → Turned A

abbrev pub Turn {ℓ} : Type ℓ → Type ℓ
Turn A = Adapter → Turned A

abbrev pub then_turn {ℓ κ} : {A : Type ℓ} {B : Type κ} → Turned A → (A → Turn B) → Turned B
then_turn (done x a) f = f x a
then_turn (threw e a) f = threw e a

-- A method of the connection.
abbrev pub at_world {ℓ} : {A : Type ℓ} → Adapter → Step A → Turned A
at_world a (returned x w) = done x (record a { world = w })
at_world a (raised e w) = threw e (record a { world = w })

-- `transactionEnded`.
abbrev pub differs : ℕ → Option ℕ → Bool
differs n none = false
differs n (some m) = not (n == m)

abbrev pub transaction_ended : Adapter → Bool
transaction_ended a =
    not a.auto_commit && differs a.world.cas.out_of_transaction_replies a.transaction_end_replies

-- `isTransactionSessionLost`.
abbrev pub session_lost : Adapter → Bool
session_lost a =
    not a.auto_commit
    && (is_given a.transaction_abort
        || (not (is_connected a.world.cas)
            || differs a.world.cas.generation a.transaction_generation))

abbrev pub not_connected_error : Adapter → Thrown
not_connected_error a = if session_lost a then connection_lost else failure error

-- `assertTransactionSession`.
abbrev pub assert_unaborted : Option Thrown → Turn (Unit {0})
assert_unaborted (some e) a = threw (caused e) a
assert_unaborted none a = if session_lost a then threw connection_lost a else done tt a

abbrev pub assert_session : Turn (Unit {0})
assert_session a = assert_unaborted a.transaction_abort a

-- `dropSessionIfTransactionEnded`.
unfoldable pub drop_if_ended : Turn (Unit {0})
drop_if_ended a =
    if is_connected a.world.cas && transaction_ended a
    then at_world a (discard_session a.world)
    else done tt a

abbrev pub end_transaction : Adapter → Adapter
end_transaction a = record a {
  auto_commit = true;
  transaction_generation = none;
  transaction_end_replies = none;
  transaction_abort = none;
}

abbrev pub record_abort : Thrown → Adapter → Adapter
record_abort e a =
    if not a.auto_commit && is_server_transaction_abort e
    then record a { transaction_abort = some e }
    else a

-- `endTransactionIfSessionLost`.
abbrev pub end_if_lost : Adapter → Adapter
end_if_lost a = if session_lost a then end_transaction a else a

-- The `catch` block of commit and of rollback.
abbrev pub settle_failure : Turned (Unit {0}) → Turned (Unit {0})
settle_failure (done x a) = done x a
settle_failure (threw e a) = threw (map_error transaction e) (end_if_lost (record_abort e a))

abbrev pub require_connected : Turn (Unit {0})
require_connected a =
    if is_connected a.world.cas then done tt a else threw (not_connected_error a) a

module _ (net : Network) (config : CasConfig) where
  -- END_TRAN: 1 commits, 2 rolls back.
  unfoldable pub end_tran_now : ℤ → Act (Unit {0})
  end_tran_now type = do
    c ← get_cas
    f ← lift (write_end_tran type c.cas_info)
    payload ← send_and_recv net config f
    lift (parse_simple_response payload)

  -- Up to the request.
  abbrev pub ready_to_commit : Turn (Unit {0})
  ready_to_commit a =
      then_turn (drop_if_ended a) (λ _ b. then_turn (require_connected b) (λ _. assert_session))

  -- From the request on.
  abbrev pub commit_sent : Turn (Unit {0})
  commit_sent a =
      then_turn (at_world a (end_tran_now (pos 1) a.world))
        (λ _ b. then_turn (assert_session b) (λ _ c. done tt (end_transaction c)))

  -- `commitNow`.
  unfoldable pub commit_now : Turn (Unit {0})
  unfolding end_tran_now drop_if_ended
  commit_now a = settle_failure (then_turn (ready_to_commit a) (λ _. commit_sent))

  -- `rollbackNow`.
  unfoldable pub rollback_now : Turn (Unit {0})
  unfolding end_tran_now
  rollback_now a = settle_failure (
      then_turn (require_connected a) (λ _ b.
        then_turn (at_world b (end_tran_now (pos 2) b.world)) (λ _ c. done tt (end_transaction c))))

  abbrev pub connect_if_needed : Turn (Unit {0})
  connect_if_needed a =
      if is_connected a.world.cas
      then done tt a
      else at_world a (connect_unlocked net config a.world)

  abbrev pub begin_failed : Turned (Unit {0}) → Turned (Unit {0})
  begin_failed (done x a) = done x a
  begin_failed (threw e a) = threw (map_error transaction e) a

  -- `beginTransactionNow`.
  unfoldable pub begin_transaction_now : Turn (Unit {0})
  begin_transaction_now a = begin_failed (
      then_turn
        (if is_given a.transaction_generation || is_given a.transaction_abort
          then assert_session a
          else done tt a)
        (λ _ b.
          then_turn (connect_if_needed b) (λ _ c. done tt (record c { auto_commit = false }))))

-- `bindTransactionSession`, after a statement has been answered.
abbrev pub bind_generation : Adapter → Adapter
bind_generation a = record a {
  transaction_generation =
      (if not a.auto_commit && not (is_given a.transaction_generation)
        then some a.world.cas.generation
        else a.transaction_generation);
}

unfoldable pub bind_transaction_session : Turn (Unit {0})
bind_transaction_session a =
    if session_lost (bind_generation a) || transaction_ended (bind_generation a)
    then then_turn (at_world (bind_generation a) (discard_session a.world))
        (λ _. threw connection_lost)
    else done tt (bind_generation a)
