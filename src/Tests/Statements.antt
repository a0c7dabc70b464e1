-- ===== src/Tests/Statements.antt =====
-- Statements on a network whose session answers every request: an INSERT, a SELECT in two windows,
-- and a CLOB in one chunk.
use cubrid_client.Base.{
  ℕ, ◌≡◌, refl, arith, true, List, [], ◌∷◌, ◌++◌, ◌==◌, if◌then◌else◌, some, none, pos, replicate,
  get_or,
}
use cubrid_client.Constants.{type_clob}
use cubrid_client.Failure.{malformed_reply}
use cubrid_client.Errors.{failure}
use cubrid_client.Request.{Frame}
use cubrid_client.Reply.Execute.{PrepareAndExecuteResult}
use cubrid_client.Value.{LobLocator}
use cubrid_client.Session.World.{Ask, ask_reply, Answer, received}
use cubrid_client.Adapter.{Adapter, threw, commit_now}
use cubrid_client.Adapter.Turns.{Platform, refuse}
use cubrid_client.Adapter.Handle.{with_query_handle}
use cubrid_client.Adapter.Fetching.{fetch_rest, fetch_remaining}
use cubrid_client.Adapter.Fetching.Exact.{AllFetched, fetch_remaining-AllFetched, fetch_rest-enough}
use cubrid_client.Adapter.Lobs.{read_content, read_chunks}
use cubrid_client.Adapter.Lobs.Exact.{WholeLob, read_content-WholeLob, read_chunks-enough}
use cubrid_client.Adapter.InsertId.{read_execute_result}
use cubrid_client.Adapter.Running.{StatementCall, exchange_statement}
use cubrid_client.Adapter.KeepingCalls.{read_execute_result-IsKeeping}
use cubrid_client.Adapter.Deferred.{Deferred, exchange_statement-Deferred}
use cubrid_client.Adapter.Damaged.{dropped, with_query_handle-dropped}
use cubrid_client.Adapter.History.{
  Deed, executing, querying, pinging, do_deeds, Ended, do_deeds-Ended,
}
use cubrid_client.Tests.Sessions.{config}
use cubrid_client.Tests.Adapters.{in_transaction}

-- Behind CAS_INFO 1 0 0 0: the handle 5, a PREPARE's description of an INSERT, and one result.
abbrev inserted : List ℕ
inserted =
    (1 ∷ 0 ∷ 0 ∷ 0 ∷ [])
    ++ (0 ∷ 0 ∷ 0 ∷ 5 ∷ [])
    ++ replicate 4 0
    ++ (20 ∷ [])
    ++ replicate 4 0
    ++ (0 ∷ [])
    ++ replicate 4 0
    ++ (0 ∷ 0 ∷ 0 ∷ 1 ∷ [])
    ++ (0 ∷ [])
    ++ (0 ∷ 0 ∷ 0 ∷ 1 ∷ [])
    ++ (20 ∷ 0 ∷ 0 ∷ 0 ∷ 1 ∷ [])
    ++ replicate 16 0
    ++ (0 ∷ [])
    ++ replicate 4 0

-- The last generated id: a cell of a type byte and the digits 42 with their NUL.
abbrev last_id : List ℕ
last_id = (1 ∷ 0 ∷ 0 ∷ 0 ∷ []) ++ replicate 4 0 ++ (0 ∷ 0 ∷ 0 ∷ 4 ∷ []) ++ (2 ∷ 52 ∷ 50 ∷ 0 ∷ [])

-- One row without columns.
abbrev row_reply : List ℕ
row_reply = (1 ∷ 0 ∷ 0 ∷ 0 ∷ []) ++ replicate 4 0 ++ (0 ∷ 0 ∷ 0 ∷ 1 ∷ []) ++ replicate 12 0

-- Two bytes of a LOB.
abbrev content : List ℕ
content = (1 ∷ 0 ∷ 0 ∷ 0 ∷ []) ++ (0 ∷ 0 ∷ 0 ∷ 2 ∷ []) ++ (104 ∷ 105 ∷ [])

abbrev reply_to : ℕ → List ℕ
reply_to code =
    if code == 41
    then inserted
    else if code == 40
    then last_id
    else if code == 8
    then row_reply
    else if code == 37
    then content
    else (1 ∷ 0 ∷ 0 ∷ 0 ∷ []) ++ replicate 4 0

abbrev answer : Ask → Answer
answer (ask_reply payload) = received (reply_to (get_or payload 0 0))
answer ask = received []

abbrev platform : Platform
platform = record {
  network = record { opens = λ t. true; answers = λ t ask. answer ask };
  config = config;
  fetch_size = some 1;
  max_lob_bytes = none;
  number_text = λ n. 48 ∷ [];
  number_of = λ v. none;
  big_int = λ text. some (pos 42);
}

abbrev insert_call : StatementCall
insert_call = record {
  sql = 105 ∷ 110 ∷ 115 ∷ 101 ∷ 114 ∷ 116 ∷ [];
  params = [];
  issued = record { connection = 0; failed_exchanges = 0 };
  binds = none;
}

abbrev beginning : Adapter
beginning = record in_transaction { transaction_generation = none; transaction_end_replies = none }

abbrev deeds : List Deed
deeds = executing insert_call ∷ pinging ∷ querying insert_call ∷ []

do_deeds-Ended_example :
    Ended platform deeds beginning
      (do_deeds platform deeds beginning)
      (commit_now platform.network config (do_deeds platform deeds beginning))
do_deeds-Ended_example = do_deeds-Ended platform deeds beginning refl

abbrev auto : Adapter
auto = record in_transaction {
  auto_commit = true;
  transaction_generation = none;
  transaction_end_replies = none;
}

abbrev statement : Frame
statement = record { header = 0 ∷ 0 ∷ 0 ∷ 1 ∷ 1 ∷ 0 ∷ 0 ∷ 0 ∷ []; payload = 41 ∷ [] }

exchange_statement-Deferred_example :
    Deferred platform
      (read_execute_result platform)
      statement
      auto
      (exchange_statement platform (read_execute_result platform) none true statement auto)
exchange_statement-Deferred_example =
    exchange_statement-Deferred platform (read_execute_result platform) none
      (read_execute_result-IsKeeping platform) statement auto refl

-- Three rows are promised, and one has come.
abbrev selected : PrepareAndExecuteResult
selected = record {
  statement = record {
    query_handle = pos 5;
    statement_type = pos 21;
    bind_count = pos 0;
    column_count = pos 0;
    columns = [];
  };
  total_tuple_count = pos 3;
  result_infos = record { statement_type = pos 20; result_count = pos 2 } ∷ [];
  rows = [] ∷ [];
}

fetch_remaining-AllFetched_example :
    AllFetched platform 1 selected 1 3 refl
      ([] ∷ [])
      auto
      (fetch_remaining platform selected ([] ∷ []) auto)
fetch_remaining-AllFetched_example =
    fetch_remaining-AllFetched platform selected ([] ∷ []) 3 auto refl (omega arith)

fetch_rest-enough_example :
    fetch_rest platform 1 selected 1 8 ([] ∷ []) auto
    ≡ fetch_rest platform 1 selected 1 3 ([] ∷ []) auto
fetch_rest-enough_example =
    fetch_rest-enough platform 1 selected 1 3 refl 5 3 ([] ∷ []) auto (omega arith) (omega arith)

abbrev clob : LobLocator
clob = record { type = type_clob; size = 4; handle = 0 ∷ 0 ∷ 0 ∷ 34 ∷ [] }

read_content-WholeLob_example : WholeLob platform 1 clob [] auto (read_content platform 1 clob auto)
read_content-WholeLob_example = read_content-WholeLob platform 1 clob auto

read_chunks-enough_example :
    read_chunks platform 1 clob 9 [] auto ≡ read_chunks platform 1 clob 5 [] auto
read_chunks-enough_example =
    read_chunks-enough platform 1 clob 4 5 [] auto (omega arith) (omega arith)

with_query_handle-dropped_example :
    with_query_handle {0} platform {A = Unit {0}}
      (replicate 4 0)
      (refuse (failure malformed_reply))
      auto
    ≡ threw (failure malformed_reply) (dropped auto)
with_query_handle-dropped_example =
    with_query_handle-dropped platform (replicate 4 0) (refuse (failure malformed_reply)) auto auto
      refl
