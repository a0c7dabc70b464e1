-- ===== src/Session/Opening.antt =====
-- Opening a session: handshakeUnlocked with its retries, and applySessionParametersUnlocked.
use cubrid_client.Base.{
  ℕ, zero, suc, ◌+◌, Bool, true, false, List, [], ◌∷◌, if◌then◌else◌, ℤ, pos, negsuc, drop,
}
use cubrid_client.Failure.{error}
use cubrid_client.Errors.{Thrown, failure, socket_refused, caused, is_read_timeout}
use cubrid_client.Request.{
  Frame, write_set_db_parameter, write_check_cas, write_client_info_exchange, write_open_database,
}
use cubrid_client.Reply.Open.{OpenDatabaseResult, parse_client_info_exchange, parse_open_database}
use cubrid_client.Reply.Simple.{parse_simple_response, parse_check_cas}
use cubrid_client.Session.World.{
  SessionParameter, Cas, World, ask_port, ask_tls, ask_database, Network, Step, returned, raised,
  Act, then_do, ◌>>=◌, ◌>>◌, give, raise, rescue, lift, with_cas, get_cas, copied, says_out,
  create_socket, await_bytes, send_recv,
}

-- The parts of CASConnectionConfig that the handshake reads.
pub record CasConfig : Type 0 where
  pub database : List ℕ
  pub user : List ℕ
  pub password : List ℕ
  pub ssl : Bool
  pub max_connection_retry_count : ℕ

abbrev pub settled_cas : Cas → Cas
settled_cas c = record c { out_of_transaction = says_out c.cas_info; cas_verified = true }

-- A read timeout stays at the top; any other failure is a cause.
abbrev pub settings_failed : Thrown → Thrown
settings_failed e = if is_read_timeout e then e else caused e

-- The state once OpenDatabase has answered.
abbrev pub opened : OpenDatabaseResult → Cas → Cas
opened r c = record c {
  cas_info = r.cas_info;
  proto_version = r.proto_version;
  session_id = r.session_id;
  generation = c.generation + 1;
  out_of_transaction = false;
  cas_verified = false;
  connected = true;
  setting_up = true;
}

abbrev pub handshaking : World → World
handshaking w = record w { cas = record w.cas { in_handshake = true } }

abbrev pub undone : Cas → Cas
undone c = record c {
  connected = false;
  setting_up = false;
  has_socket = false;
  in_handshake = false;
}

abbrev pub guarded : Step (Unit {0}) → Step (Unit {0})
guarded (returned u w) = returned u (record w { cas = record w.cas { in_handshake = false } })
guarded (raised e w) = raised e (record w { cas = undone w.cas })

-- The loop of `connectUnlocked`: only a refused socket is tried again.
abbrev pub unless_refused : Step (Unit {0}) → Act (Unit {0}) → Step (Unit {0})
unless_refused (raised socket_refused w) again = again w
unless_refused s again = s

module _ (net : Network) where
  -- One exchange that only updates CAS_INFO; it counts nowhere.
  unfoldable pub quiet_exchange : Frame → Act (List ℕ)
  quiet_exchange f = do
    body ← send_recv net f
    with_cas (λ c. record c { cas_info = copied body c.cas_info })
    give (drop 4 body)

  unfoldable pub apply_parameter : SessionParameter → Act (Unit {0})
  unfolding quiet_exchange
  apply_parameter p = do
    c ← get_cas
    f ← lift (write_set_db_parameter p.parameter p.value c.cas_info)
    payload ← quiet_exchange f
    lift (parse_simple_response payload)

  unfoldable pub apply_parameters : List SessionParameter → Act (Unit {0})
  unfolding apply_parameter
  apply_parameters [] = give tt
  apply_parameters (p ∷ ps) = do apply_parameter p; apply_parameters ps

  -- CHECK_CAS, which holds the CAS.
  unfoldable pub check_cas_now : Act (Unit {0})
  unfolding quiet_exchange
  check_cas_now = do
    c ← get_cas
    f ← lift (write_check_cas c.cas_info)
    payload ← quiet_exchange f
    lift (parse_check_cas payload)

  abbrev pub settings : List SessionParameter → Act (Unit {0})
  settings [] w = returned tt w
  settings (p ∷ ps) w =
      then_do
        (rescue ((do apply_parameters (p ∷ ps); check_cas_now) w) (λ e. raise (settings_failed e)))
        (λ _. with_cas settled_cas)

  -- `applySessionParametersUnlocked`.
  unfoldable pub apply_session_parameters : Act (Unit {0})
  unfolding apply_parameters check_cas_now
  apply_session_parameters w = settings w.cas.session_parameters w

  -- Steps 1 to 3: a refusal, the broker's own socket, or a new one.
  unfoldable pub redirected : ℤ → Act (Unit {0})
  redirected (negsuc n) = raise (failure error)
  redirected (pos zero) = give tt
  redirected (pos (suc n)) = create_socket net

  unfoldable pub upgrade : Bool → Act (Unit {0})
  upgrade false = give tt
  upgrade true = do _ ← await_bytes net ask_tls; give tt

  -- The body of the `try` block.
  unfoldable pub negotiate : CasConfig → Act (Unit {0})
  unfolding redirected upgrade apply_session_parameters
  negotiate config = do
    _ ← lift (write_client_info_exchange config.ssl)
    port_data ← await_bytes net ask_port
    port ← lift (parse_client_info_exchange port_data)
    redirected port
    with_cas (λ c. record c { has_socket = true })
    upgrade config.ssl
    _ ← lift (write_open_database config.database config.user config.password)
    body ← await_bytes net ask_database
    r ← lift (parse_open_database body)
    with_cas (opened r)
    apply_session_parameters
    with_cas (λ c. record c { setting_up = false })

  -- `handshakeUnlocked`. A refused first socket leaves `inHandshake` up.
  unfoldable pub handshake : CasConfig → Act (Unit {0})
  unfolding negotiate
  handshake config w =
      if w.cas.connected
      then returned tt w
      else then_do (create_socket net (handshaking w)) (λ _ w'. guarded (negotiate config w'))

  unfoldable pub connect_retrying : CasConfig → ℕ → Act (Unit {0})
  connect_retrying config zero w = handshake config w
  connect_retrying config (suc retries) w =
      unless_refused (handshake config w) (λ w'. connect_retrying config retries w')

  unfoldable pub connect_unlocked : CasConfig → Act (Unit {0})
  unfolding connect_retrying
  connect_unlocked config = connect_retrying config config.max_connection_retry_count
