-- ===== src/Tests/Sessions.antt =====
-- A connection on a network that refuses the first TCP connection and then works.
use cubrid_client.Base.{
  ℕ, zero, suc, ◌+◌, ◌≡◌, refl, arith, Bool, true, false, List, [], ◌∷◌, ◌++◌, pos, replicate,
}
use cubrid_client.Buffer.{signed, be_value}
use cubrid_client.Errors.{
  connection_lost, transaction, query, error_class, CubridErrorDetails, mapped, to_error,
}
use cubrid_client.Errors.Layers.{Nearest, map_layers, map_layers_lem}
use cubrid_client.Reader.{
  new_reader, parse_int, fixed, parse_bytes, parse_cas_info, assert_available,
}
use cubrid_client.Request.{Frame}
use cubrid_client.Reply.Open.{parse_client_info_exchange, parse_open_database, read_broker_info}
use cubrid_client.Reply.Simple.{parse_simple_response, parse_check_cas}
use cubrid_client.Session.World.{
  World, Ask, ask_port, ask_tls, ask_database, ask_reply, Answer, received, Network,
}
use cubrid_client.Session.Opening.{CasConfig, connect_unlocked}
use cubrid_client.Session.Exchange.{on_session}
use cubrid_client.Session.Outcome.{Held, on_session-Held}
use cubrid_client.Session.Connect.{Connection, connect_unlocked-Connection}
use cubrid_client.Session.Safe.{IsSound}
use cubrid_client.Session.Operations.{
  Operation, ensure, disconnect, drop_session, request, request_on, configure, check_alive,
  perform_all, perform_all-IsSound,
}
use cubrid_client.Session.Live.{
  good_port, good_tls, good_database, good_reply, IsHealthy, Lands, IsOpen,
}
use cubrid_client.Session.Recovery.{connect_unlocked-Lands}

abbrev up_from_one : ℕ → Bool
up_from_one zero = false
up_from_one (suc n) = true

-- No redirect; CAS_INFO 0 0 0 0, code 0, eight bytes of broker info and the session 7.
abbrev login : List ℕ
login = replicate 8 0 ++ (64 ∷ 0 ∷ 0 ∷ 0 ∷ 71 ∷ 0 ∷ 0 ∷ 0 ∷ 0 ∷ 0 ∷ 0 ∷ 7 ∷ [])

abbrev answer : Ask → Answer
answer ask_port = received (0 ∷ 0 ∷ 0 ∷ 0 ∷ [])
answer ask_tls = received []
answer ask_database = received login
answer (ask_reply payload) = received (replicate 8 0)

abbrev pub network : Network
network = record { opens = up_from_one; answers = λ t ask. answer ask }

abbrev pub config : CasConfig
config = record {
  database = 100 ∷ [];
  user = 117 ∷ [];
  password = [];
  ssl = true;
  max_connection_retry_count = 2;
}

abbrev fresh : World
fresh = record {
  cas = record {
    has_socket = false;
    connected = false;
    cas_info = replicate 4 0;
    proto_version = 0;
    session_id = pos 0;
    generation = 0;
    failed_exchanges = 0;
    in_handshake = false;
    out_of_transaction = false;
    out_of_transaction_replies = 0;
    cas_verified = false;
    setting_up = false;
    session_parameters = record { parameter = pos 1; value = pos 4 } ∷ [];
  };
  clock = 0;
  sent = [];
}

abbrev commit : Frame
commit = record {
  header = 0 ∷ 0 ∷ 0 ∷ 6 ∷ 0 ∷ 0 ∷ 0 ∷ 0 ∷ [];
  payload = 1 ∷ 0 ∷ 0 ∷ 0 ∷ 1 ∷ 1 ∷ [];
}

up_at : (t d : ℕ) → suc d ≡ t → up_from_one t ≡ true
up_at t d e = rw⁻¹ e refl

down_at : (t : ℕ) → 0 ≡ t → up_from_one t ≡ false
down_at t e = rw⁻¹ e refl

network-IsHealthy : IsHealthy network 1
unfolding parse_client_info_exchange parse_open_database read_broker_info parse_simple_response
    parse_check_cas parse_int fixed new_reader signed be_value parse_bytes parse_cas_info
    assert_available
network-IsHealthy = record {
  opens = λ d. up_at (1 + d) d (omega arith);
  port = λ d. good_port _ 0 refl;
  tls = λ d. good_tls [];
  database = λ d. good_database login _ refl refl;
  reply = λ d payload. good_reply (replicate 8 0) refl refl;
}

connect_unlocked-Lands_example : Lands (λ _. IsOpen 1) (connect_unlocked network config fresh)
connect_unlocked-Lands_example =
    connect_unlocked-Lands network config 1 fresh refl ((omega arith, omega arith), tt)
      (omega arith) (λ d h. down_at (0 + d) (omega (arith, h))) network-IsHealthy

connect_unlocked-Connection_example :
    Connection network fresh (connect_unlocked network config fresh)
connect_unlocked-Connection_example = connect_unlocked-Connection network config fresh

on_session-Held_example : Held network 1 commit true fresh (on_session network 1 commit true fresh)
on_session-Held_example = on_session-Held network 1 commit true fresh

abbrev operations : List Operation
operations =
    ensure
    ∷ request commit
    ∷ configure []
    ∷ check_alive true
    ∷ drop_session
    ∷ ensure
    ∷ request_on 1 commit true
    ∷ request_on 2 commit false
    ∷ disconnect
    ∷ []

fresh-IsSound : IsSound fresh
fresh-IsSound = record { socket = refl; over = refl; order = omega arith }

perform_all-IsSound_example : IsSound (perform_all network config operations fresh)
perform_all-IsSound_example = perform_all-IsSound network config operations fresh fresh-IsSound

map_layers_lem_example :
    (d : CubridErrorDetails) × Nearest connection_lost d
    × (map_layers (transaction ∷ query ∷ []) connection_lost
        ≡ mapped (error_class transaction d) d (to_error (map_layers (query ∷ []) connection_lost)))
map_layers_lem_example = map_layers_lem transaction (query ∷ []) connection_lost refl
