-- ===== src/Session/Control.antt =====
-- The requests that opening and verifying a session puts on the wire (src/protocol/connection.ts).
use cubrid_client.Base.{
  ℕ, zero, suc, ◌≡◌, refl, arith, Bool, true, false, ◌&&◌, List, [], ◌∷◌, if◌then◌else◌, Bool-cases,
  inl, inr, drop, ℤ, pos, negsuc,
}
use cubrid_client.Failure.{error, Result, ok, fail}
use cubrid_client.Errors.{
  failure, connection_lost, stream_busy, read_timeout, socket_refused, caused, mapped, foreign,
}
use cubrid_client.Request.{
  Frame, write_set_db_parameter, write_check_cas, write_client_info_exchange, write_open_database,
}
use cubrid_client.Reply.Open.{parse_client_info_exchange, parse_open_database}
use cubrid_client.Reply.Simple.{parse_simple_response, parse_check_cas}
use cubrid_client.Session.World.{
  SessionParameter, Cas, World, ask_port, ask_tls, ask_database, ask_reply, Answer, dead, broken,
  received, Network, Step, returned, raised, Act, ◌>>=◌, ◌>>◌, raise, rescue, lift, with_cas,
  get_cas, tick, copied, create_socket, on_wire, send_recv,
}
use cubrid_client.Session.Opening.{
  CasConfig, quiet_exchange, apply_parameter, apply_parameters, check_cas_now, settled_cas,
  settings_failed, settings, apply_session_parameters, redirected, upgrade, opened, negotiate,
  guarded, handshaking, handshake, unless_refused, connect_retrying, connect_unlocked,
}
use cubrid_client.Session.Quiet.{
  IsControl, setting, probing, Quiet, world_of, Quiet-refl, Quiet-trans, IsQuiet, silent,
  Quiet-then, IsQuiet-bind, IsQuiet-then, IsQuiet-give, IsQuiet-raise, IsQuiet-lift,
  IsQuiet-with_cas, Quiet-rescue, create_socket-IsQuiet, await_bytes-IsQuiet,
}

pub get_cas-bind {ℓ} :
    {A : Type ℓ} {f : Cas → Act A} → ((c : Cas) → IsQuiet (f c)) → IsQuiet (get_cas >>= f)
get_cas-bind h = record { at = λ w. (h w.cas).at w }

-- What follows a request that was written may use the equation.
pub lift-bind {ℓ κ} :
    {A : Type ℓ} {B : Type κ} (r : Result A) {f : A → Act B}
    → ((a : A) → r ≡ ok a → IsQuiet (f a))
    → IsQuiet (lift r >>= f)
lift-bind (ok a) h = h a refl
lift-bind (fail e) h = record { at = Quiet-refl }

pub branch-Quiet {ℓ} :
    {A : Type ℓ} (w : World) (b : Bool) (s t : Step A)
    → Quiet w (world_of s)
    → Quiet w (world_of t)
    → Quiet w (world_of (if b then s else t))
branch-Quiet w true s t p q = p
branch-Quiet w false s t p q = q

module _ (net : Network) where
  on_wire-Quiet :
      (payload : List ℕ)
      → IsControl payload
      → (a : Answer) (w : World) → Quiet w (world_of (on_wire net payload a w))
  on_wire-Quiet payload c dead w = Quiet-refl w
  on_wire-Quiet payload c (broken e) w = record {
    requests = (record { on = w.cas.generation; payload = payload }) ∷ [];
    controls = (c, tt);
    wire = refl;
    failed = refl;
    ended = refl;
    parameters = refl;
    order = (omega arith, omega arith);
  }
  on_wire-Quiet payload c (received bytes) w = record {
    requests = (record { on = w.cas.generation; payload = payload }) ∷ [];
    controls = (c, tt);
    wire = refl;
    failed = refl;
    ended = refl;
    parameters = refl;
    order = (omega arith, omega arith);
  }

  send_recv-IsQuiet : (f : Frame) → IsControl f.payload → IsQuiet (send_recv net f)
  unfolding send_recv
  send_recv-IsQuiet f c = record {
    at = λ w. elim (Bool-cases (w.cas.has_socket && w.cas.connected)) [
      | inl e ↦ rw e (
          Quiet-trans (silent w (tick w) refl refl refl refl (omega arith))
            (on_wire-Quiet f.payload c (net.answers w.clock (ask_reply f.payload)) (tick w)))
      | inr e ↦ rw e (Quiet-refl w)
    ];
  }

  quiet_exchange-IsQuiet : (f : Frame) → IsControl f.payload → IsQuiet (quiet_exchange net f)
  unfolding quiet_exchange
  quiet_exchange-IsQuiet f c = IsQuiet-bind (send_recv-IsQuiet f c) (λ body.
      IsQuiet-then
        (IsQuiet-with_cas (λ c. record c { cas_info = copied body c.cas_info })
          (λ c. (refl, refl, refl, omega arith)))
        (IsQuiet-give (drop 4 body)))

  apply_parameter-IsQuiet : (p : SessionParameter) → IsQuiet (apply_parameter net p)
  unfolding apply_parameter
  apply_parameter-IsQuiet p = get_cas-bind (λ c.
      lift-bind (write_set_db_parameter p.parameter p.value c.cas_info) (λ f e.
        IsQuiet-bind (quiet_exchange-IsQuiet f (setting p.parameter p.value c.cas_info f e))
          (λ payload. IsQuiet-lift (parse_simple_response payload))))

  apply_parameters-IsQuiet : (ps : List SessionParameter) → IsQuiet (apply_parameters net ps)
  unfolding apply_parameters
  apply_parameters-IsQuiet [] = IsQuiet-give tt
  apply_parameters-IsQuiet (p ∷ ps) =
      IsQuiet-then (apply_parameter-IsQuiet p) (apply_parameters-IsQuiet ps)

  pub check_cas_now-IsQuiet : IsQuiet (check_cas_now net)
  unfolding check_cas_now
  check_cas_now-IsQuiet = get_cas-bind (λ c. lift-bind (write_check_cas c.cas_info) (λ f e.
      IsQuiet-bind (quiet_exchange-IsQuiet f (probing c.cas_info f e))
        (λ payload. IsQuiet-lift (parse_check_cas payload))))

  settings-Quiet : (ps : List SessionParameter) (w : World) → Quiet w (world_of (settings net ps w))
  settings-Quiet [] w = Quiet-refl w
  settings-Quiet (p ∷ ps) w =
      Quiet-then w
        (rescue ((do apply_parameters net (p ∷ ps); check_cas_now net) w)
          (λ e. raise (settings_failed e)))
        (λ _. with_cas settled_cas)
        (Quiet-rescue w ((do apply_parameters net (p ∷ ps); check_cas_now net) w)
          (λ e. raise (settings_failed e))
          ((IsQuiet-then (apply_parameters-IsQuiet (p ∷ ps)) check_cas_now-IsQuiet).at w)
          (λ e. IsQuiet-raise (settings_failed e)))
        (λ _. IsQuiet-with_cas settled_cas (λ c. (refl, refl, refl, omega arith)))

  pub apply_session_parameters-IsQuiet : IsQuiet (apply_session_parameters net)
  unfolding apply_session_parameters
  apply_session_parameters-IsQuiet = record { at = λ w. settings-Quiet w.cas.session_parameters w }

  redirected-IsQuiet : (port : ℤ) → IsQuiet (redirected net port)
  unfolding redirected
  redirected-IsQuiet (negsuc n) = IsQuiet-raise (failure error)
  redirected-IsQuiet (pos zero) = IsQuiet-give tt
  redirected-IsQuiet (pos (suc n)) = create_socket-IsQuiet net

  upgrade-IsQuiet : (ssl : Bool) → IsQuiet (upgrade net ssl)
  unfolding upgrade
  upgrade-IsQuiet false = IsQuiet-give tt
  upgrade-IsQuiet true = IsQuiet-bind (await_bytes-IsQuiet net ask_tls) (λ _. IsQuiet-give tt)

  negotiate-IsQuiet : (config : CasConfig) → IsQuiet (negotiate net config)
  unfolding negotiate
  negotiate-IsQuiet config =
      IsQuiet-bind (IsQuiet-lift (write_client_info_exchange config.ssl)) (λ _.
        IsQuiet-bind (await_bytes-IsQuiet net ask_port) (λ port_data.
          IsQuiet-bind (IsQuiet-lift (parse_client_info_exchange port_data)) (λ port.
            IsQuiet-then (redirected-IsQuiet port) (
              IsQuiet-then
                (IsQuiet-with_cas (λ c. record c { has_socket = true })
                  (λ c. (refl, refl, refl, omega arith)))
                (IsQuiet-then (upgrade-IsQuiet config.ssl) (
                  IsQuiet-bind
                    (IsQuiet-lift (write_open_database config.database config.user config.password))
                    (λ _. IsQuiet-bind (await_bytes-IsQuiet net ask_database) (λ body.
                      IsQuiet-bind (IsQuiet-lift (parse_open_database body)) (λ r.
                        IsQuiet-then
                          (IsQuiet-with_cas (opened r) (λ c. (refl, refl, refl, omega arith)))
                          (IsQuiet-then apply_session_parameters-IsQuiet (
                            IsQuiet-with_cas (λ c. record c { setting_up = false })
                              (λ c. (refl, refl, refl, omega arith)))))))))))))

  guarded-Quiet :
      (w : World) (s : Step (Unit {0})) → Quiet w (world_of s) → Quiet w (world_of (guarded s))
  guarded-Quiet w (returned u w') q = Quiet-trans q (silent w' _ refl refl refl refl (omega arith))
  guarded-Quiet w (raised e w') q = Quiet-trans q (silent w' _ refl refl refl refl (omega arith))

  pub handshake-IsQuiet : (config : CasConfig) → IsQuiet (handshake net config)
  unfolding handshake
  handshake-IsQuiet config = record {
    at = λ w. branch-Quiet w w.cas.connected _ _ (Quiet-refl w) (
        Quiet-trans (silent w (handshaking w) refl refl refl refl (omega arith)) (
          Quiet-then _ (create_socket net (handshaking w))
            (λ _ w'. guarded (negotiate net config w'))
            ((create_socket-IsQuiet net).at (handshaking w))
            (λ _. record {
              at = λ w'.
                  guarded-Quiet w' (negotiate net config w') ((negotiate-IsQuiet config).at w');
            })));
  }

  unless_refused-Quiet :
      (w : World) (s : Step (Unit {0})) (again : Act (Unit {0}))
      → Quiet w (world_of s)
      → IsQuiet again
      → Quiet w (world_of (unless_refused s again))
  unless_refused-Quiet w (returned u w') again q h = q
  unless_refused-Quiet w (raised (failure e) w') again q h = q
  unless_refused-Quiet w (raised connection_lost w') again q h = q
  unless_refused-Quiet w (raised stream_busy w') again q h = q
  unless_refused-Quiet w (raised read_timeout w') again q h = q
  unless_refused-Quiet w (raised socket_refused w') again q h = Quiet-trans q (h.at w')
  unless_refused-Quiet w (raised (caused e) w') again q h = q
  unless_refused-Quiet w (raised (mapped k d e) w') again q h = q
  unless_refused-Quiet w (raised foreign w') again q h = q

  connect_retrying-IsQuiet : (config : CasConfig) (n : ℕ) → IsQuiet (connect_retrying net config n)
  unfolding connect_retrying
  connect_retrying-IsQuiet config zero = handshake-IsQuiet config
  connect_retrying-IsQuiet config (suc n) = record {
    at = λ w.
        unless_refused-Quiet w (handshake net config w) (connect_retrying net config n)
          ((handshake-IsQuiet config).at w) (connect_retrying-IsQuiet config n);
  }

  pub connect_unlocked-IsQuiet : (config : CasConfig) → IsQuiet (connect_unlocked net config)
  unfolding connect_unlocked
  connect_unlocked-IsQuiet config =
      connect_retrying-IsQuiet config config.max_connection_retry_count
