-- ===== src/Tests/Adapters.antt =====
-- A transaction on the session 1 of a network that answers everything.
use cubrid_client.Base.{refl, true, false, [], ◌∷◌, some, none, pos}
use cubrid_client.Session.World.{World}
use cubrid_client.Adapter.{Adapter, no_value, commit_now, rollback_now}
use cubrid_client.Adapter.Commit.{Committed, commit_now-Committed}
use cubrid_client.Adapter.Bound.{RolledBack, rollback_now-RolledBack}
use cubrid_client.Tests.Sessions.{network, config}

abbrev pub busy : World
busy = record {
  cas = record {
    has_socket = true;
    connected = true;
    cas_info = 1 ∷ 0 ∷ 0 ∷ 0 ∷ [];
    proto_version = 7;
    session_id = pos 7;
    generation = 1;
    failed_exchanges = 0;
    in_handshake = false;
    out_of_transaction = false;
    out_of_transaction_replies = 0;
    cas_verified = false;
    setting_up = false;
    session_parameters = [];
  };
  clock = 5;
  sent = [];
}

abbrev pub in_transaction : Adapter
in_transaction = record {
  world = busy;
  auto_commit = false;
  transaction_generation = some 1;
  transaction_end_replies = some 0;
  transaction_abort = none;
  connection = 0;
  no_backslash_escapes = none;
  backslash_mode_generation = none;
  insert_id_baseline = no_value;
  insert_id_generation = none;
}

commit_now-Committed_example :
    Committed network 1 in_transaction (commit_now network config in_transaction)
commit_now-Committed_example = commit_now-Committed network config 1 in_transaction refl refl

rollback_now-RolledBack_example :
    RolledBack network in_transaction (rollback_now network config in_transaction)
rollback_now-RolledBack_example = rollback_now-RolledBack network config in_transaction
