-- ===== src/Session/Exchange.antt =====
-- The public operations of a CASConnection.
use cubrid_client.Base.{
  ℕ, ◌+◌, Bool, true, false, not, ◌&&◌, ◌||◌, List, ◌==◌, if◌then◌else◌, drop, get_or, Option, some,
  none,
}
use cubrid_client.Request.{Frame, write_check_cas, write_get_db_version}
use cubrid_client.Reply.Simple.{parse_check_cas, parse_get_db_version}
use cubrid_client.Session.World.{
  SessionParameter, Cas, Network, returned, raised, Act, then_do, ◌>>=◌, ◌>>◌, give, raise, rescue,
  lift, with_cas, get_cas, retired, copied, says_out, send_recv,
}
use cubrid_client.Session.Opening.{
  CasConfig, check_cas_now, apply_session_parameters, connect_unlocked,
}

abbrev pub needs_probe : Cas → Bool
needs_probe c = c.connected && c.out_of_transaction && not c.cas_verified

abbrev pub counted : Bool → ℕ → ℕ
counted b n = if b then n + 1 else n

-- The state after a failed exchange, and after a reply to a payload.
abbrev pub exchange_lost : Bool → Cas → Cas
exchange_lost outcome_unknown c = record (retired c) {
  failed_exchanges = counted outcome_unknown c.failed_exchanges;
}

abbrev pub is_end_tran : List ℕ → Bool
is_end_tran payload = get_or payload 0 0 == 1

abbrev pub replied : List ℕ → List ℕ → Cas → Cas
replied payload body c = record c {
  cas_info = copied body c.cas_info;
  out_of_transaction = says_out (copied body c.cas_info);
  cas_verified = false;
  out_of_transaction_replies =
      counted (says_out (copied body c.cas_info) && not (is_end_tran payload))
        c.out_of_transaction_replies;
}

unfoldable pub discard_session : Act (Unit {0})
discard_session = with_cas (exchange_lost true)

-- `beforeClose` runs while the socket is there; what it throws is dropped.
unfoldable pub close : Act (Unit {0}) → Act (Unit {0})
close before_close w =
    if w.cas.has_socket
    then then_do (rescue (before_close w) (λ e. give tt)) (λ _. with_cas retired)
    else returned tt w

abbrev pub is_connected : Cas → Bool
is_connected c = c.connected && not c.setting_up

module _ (net : Network) where
  -- `probeCasUnlocked`: every failure means that the CAS has gone.
  unfoldable pub probe_cas : Act Bool
  probe_cas w = elim (check_cas_now net w) [
    | returned u w' ↦ returned true w'
    | raised e w' ↦ returned false w'
  ]

  -- `exchangeUnlocked`.
  unfoldable pub exchange_unlocked : Frame → Bool → Act (List ℕ)
  exchange_unlocked f outcome_unknown w = elim (send_recv net f w) [
    | returned body w' ↦ returned (drop 4 body) (record w' { cas = replied f.payload body w'.cas })
    | raised e w' ↦ raised e (record w' { cas = exchange_lost outcome_unknown w'.cas })
  ]

  -- Only on the session of that generation; `none` if it is gone.
  unfoldable pub on_session : ℕ → Frame → Bool → Act (Option (List ℕ))
  unfolding exchange_unlocked
  on_session generation f outcome_unknown w =
      if w.cas.connected && w.cas.generation == generation
      then (do body ← exchange_unlocked f outcome_unknown; give (some body)) w
      else returned none w

  unfoldable pub send_and_recv_on_session : ℕ → Frame → Act (Option (List ℕ))
  unfolding on_session
  send_and_recv_on_session generation f = on_session generation f true

  unfoldable pub release_on_session : ℕ → Frame → Act (Option (List ℕ))
  unfolding on_session
  release_on_session generation f = on_session generation f false

  -- New parameters go to the open session, unless a new one has them already.
  unfoldable pub resettle : ℕ → Act (Unit {0})
  resettle generation w =
      if not w.cas.connected || not (w.cas.generation == generation)
      then returned tt w
      else rescue (apply_session_parameters net w) (λ e. do with_cas retired; raise e)

module _ (net : Network) (config : CasConfig) where
  abbrev pub after_probe : Bool → Act (Unit {0})
  after_probe true = with_cas (λ c. record c { cas_verified = true })
  after_probe false = do with_cas retired; connect_unlocked net config

  -- `verifySessionUnlocked`.
  unfoldable pub verify_session : Act (Unit {0})
  unfolding probe_cas
  verify_session w = if needs_probe w.cas then (probe_cas net >>= after_probe) w else returned tt w

  unfoldable pub ensure_session : Act (Unit {0})
  unfolding verify_session
  ensure_session = do verify_session; connect_unlocked net config

  unfoldable pub send_and_recv : Frame → Act (List ℕ)
  unfolding verify_session exchange_unlocked
  send_and_recv f = do verify_session; exchange_unlocked net f true

  unfoldable pub set_session_parameters : List SessionParameter → Act (Unit {0})
  unfolding verify_session resettle
  set_session_parameters parameters = do
    with_cas (λ c. record c { session_parameters = parameters })
    c ← get_cas
    verify_session
    resettle net c.generation

  -- Inside a transaction CHECK_CAS goes first.
  unfoldable pub confirm : Bool → Act (Unit {0})
  unfolding send_and_recv
  confirm false = give tt
  confirm true = do
    c ← get_cas
    f ← lift (write_check_cas c.cas_info)
    payload ← send_and_recv f
    lift (parse_check_cas payload)

  unfoldable pub ping : Bool → Act (List ℕ)
  unfolding send_and_recv confirm
  ping in_transaction = do
    confirm in_transaction
    c ← get_cas
    f ← lift (write_get_db_version (not in_transaction) c.cas_info)
    payload ← send_and_recv f
    lift (parse_get_db_version payload)
