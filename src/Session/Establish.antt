-- ===== src/Session/Establish.antt =====
-- A handshake on a network that answers as it should.
use cubrid_client.Base.{
  ℕ, zero, suc, ◌+◌, ◌-◌, ◌≤◌, ◌≡◌, refl, sym, subst, ap, arith, Bool, true, false, List, [], ◌∷◌,
  if◌then◌else◌, length, pos,
}
use cubrid_client.Request.{write_client_info_exchange, write_open_database}
use cubrid_client.Request.Handshake.{write_client_info_exchange_lem, write_open_database_lem}
use cubrid_client.Reply.Open.{OpenDatabaseResult, parse_client_info_exchange, parse_open_database}
use cubrid_client.Session.World.{
  SessionParameter, World, Ask, ask_port, ask_tls, ask_database, Answer, received, Network, Step,
  returned, ◌>>=◌, ◌>>◌, lift, rescue, raise, with_cas, create_socket, await_bytes,
}
use cubrid_client.Session.Opening.{
  CasConfig, apply_parameters, check_cas_now, settings_failed, settings, apply_session_parameters,
  redirected, upgrade, opened, negotiate, guarded, handshaking, handshake,
}
use cubrid_client.Session.Live.{
  GoodPort, good_port, GoodTls, good_tls, GoodDatabase, good_database, IsHealthy, Storable, Lands,
  lands, Lands-bind, Lands-rescue, Lands-lift, Lands-if, IsOpen, apply_parameters-Lands,
  check_cas_now-Lands,
}

-- Some step of a handshake before the session is open.
record IsDialling (from : ℕ) (x : List SessionParameter × Bool) (w : World) : Type 0 where
  awake : from ≤ w.clock
  kept : (w.cas.session_parameters, w.cas.has_socket) ≡ x

pub if_else {ℓ} : {A : Type ℓ} (b : Bool) (x y : A) → b ≡ false → (if b then x else y) ≡ y
if_else b x y e = rw e refl

Lands-else {ℓ} :
    {A : Type ℓ} {Q : A → World → Type 0} (b : Bool) (s t : Step A)
    → b ≡ false
    → Lands Q t
    → Lands Q (if b then s else t)
Lands-else b s t e h = rw e h

module _ (net : Network) (from : ℕ) (healthy : IsHealthy net from) where
  settings-Lands :
      (ps : List SessionParameter) (w : World)
      → Storable ps
      → IsOpen from w
      → Lands (λ _. IsOpen from) (settings net ps w)
  settings-Lands [] w h q = lands tt w q
  settings-Lands (p ∷ ps) w h q =
      Lands-bind
        (rescue ((do apply_parameters net (p ∷ ps); check_cas_now net) w)
          (λ e. raise (settings_failed e)))
        _
        (Lands-rescue ((do apply_parameters net (p ∷ ps); check_cas_now net) w)
          (λ e. raise (settings_failed e))
          (Lands-bind (apply_parameters net (p ∷ ps) w) (λ _. check_cas_now net)
            (apply_parameters-Lands net from healthy (p ∷ ps) w h q)
            (λ _ w' o. check_cas_now-Lands net from healthy w' o)))
        (λ _ w' o.
          lands tt _
            (record { socket = o.socket; connected = o.connected; four = o.four; awake = o.awake }))

  awake_open : (w : World) → from ≤ w.clock → net.opens w.clock ≡ true
  awake_open w h =
      subst (λ t. net.opens t ≡ true) (omega (arith, h)) (healthy.opens (w.clock - from))

  create_socket-Lands :
      (x : List SessionParameter × Bool) (w : World)
      → IsDialling from x w
      → Lands (λ _. IsDialling from x) (create_socket net w)
  unfolding create_socket
  create_socket-Lands x w q =
      Lands-if (net.opens w.clock) _ _ (awake_open w q.awake)
        (lands tt _ (record { awake = omega (arith, q.awake); kept = q.kept }))

  await_bytes-Lands :
      {G : Answer → Type 0} (ask : Ask) (x : List SessionParameter × Bool) (w : World)
      → IsDialling from x w
      → ((d : ℕ) → G (net.answers (from + d) ask))
      → ((a : Answer) → G a → (bytes : List ℕ) × (a ≡ received bytes) × G (received bytes))
      → Lands (λ bytes w'. G (received bytes) × IsDialling from x w') (await_bytes net ask w)
  unfolding await_bytes
  await_bytes-Lands {G} ask x w q h k =
      let (bytes, e, g) =
        k (net.answers w.clock ask)
          (subst (λ t. G (net.answers t ask)) (omega (arith, q.awake)) (h (w.clock - from))) in
      rw e (lands bytes _ (g, record { awake = omega (arith, q.awake); kept = q.kept }))

  redirected-Lands :
      (n : ℕ) (x : List SessionParameter × Bool) (w : World)
      → IsDialling from x w
      → Lands (λ _. IsDialling from x) (redirected net (pos n) w)
  unfolding redirected
  redirected-Lands zero x w q = lands tt w q
  redirected-Lands (suc n) x w q = create_socket-Lands x w q

  upgrade_answers :
      (a : Answer) → GoodTls a → (bytes : List ℕ) × (a ≡ received bytes) × GoodTls (received bytes)
  upgrade_answers _ (good_tls bytes) = (bytes, refl, good_tls bytes)

  port_answers :
      (a : Answer)
      → GoodPort a
      → (bytes : List ℕ) × (a ≡ received bytes) × GoodPort (received bytes)
  port_answers _ (good_port bytes n e) = (bytes, refl, good_port bytes n e)

  database_answers :
      (a : Answer)
      → GoodDatabase a
      → (bytes : List ℕ) × (a ≡ received bytes) × GoodDatabase (received bytes)
  database_answers _ (good_database body r e h) = (body, refl, good_database body r e h)

  upgrade-Lands :
      (ssl : Bool) (x : List SessionParameter × Bool) (w : World)
      → IsDialling from x w
      → Lands (λ _. IsDialling from x) (upgrade net ssl w)
  unfolding upgrade
  upgrade-Lands false x w q = lands tt w q
  upgrade-Lands true x w q =
      Lands-bind (await_bytes net ask_tls w) _
        (await_bytes-Lands ask_tls x w q healthy.tls upgrade_answers) (λ _ w' a. lands tt w' a.1)

  -- From the reply to OpenDatabase on.
  establish :
      (ps : List SessionParameter) (r : OpenDatabaseResult) (w : World)
      → Storable ps
      → IsDialling from (ps, true) w
      → length r.cas_info ≡ 4
      → Lands
          (λ _. IsOpen from)
          ((with_cas (opened r) >>= λ _.
              apply_session_parameters net >>= λ _. with_cas (λ c. record c { setting_up = false }))
            w)
  unfolding apply_session_parameters
  establish ps r w h q l =
      Lands-bind (settings net w.cas.session_parameters (record w { cas = opened r w.cas })) _
        (settings-Lands w.cas.session_parameters (record w { cas = opened r w.cas })
          (subst Storable (sym (ap (λ x. x.0) q.kept)) h)
          (record { socket = ap (λ x. x.1) q.kept; connected = refl; four = l; awake = q.awake }))
        (λ _ w' o.
          lands tt _
            (record { socket = o.socket; connected = o.connected; four = o.four; awake = o.awake }))

  -- From the redirect to OpenDatabase.
  log_in :
      (config : CasConfig) (ps : List SessionParameter) (w : World)
      → Storable ps
      → IsDialling from (ps, true) w
      → Lands
          (λ _. IsOpen from)
          ((upgrade net config.ssl >>= λ _.
              lift (write_open_database config.database config.user config.password) >>= λ _.
              await_bytes net ask_database >>= λ body. lift (parse_open_database body) >>= λ r.
              with_cas (opened r) >>= λ _.
              apply_session_parameters net >>= λ _. with_cas (λ c. record c { setting_up = false }))
            w)
  log_in config ps w h q =
      Lands-bind (upgrade net config.ssl w) _ (upgrade-Lands config.ssl (ps, true) w q) (λ _ w1 q1.
        Lands-lift (write_open_database config.database config.user config.password) _ w1 _
          ((write_open_database_lem config.database config.user config.password).0)
          (Lands-bind (await_bytes net ask_database w1) _
            (await_bytes-Lands ask_database (ps, true) w1 q1 healthy.database database_answers)
            (λ body w2 a. parsed body w2 a.0 a.1)))
    where
      parsed :
          (body : List ℕ) (w2 : World)
          → GoodDatabase (received body)
          → IsDialling from (ps, true) w2
          → Lands
              (λ _. IsOpen from)
              ((lift (parse_open_database body) >>= λ r. with_cas (opened r) >>= λ _.
                  apply_session_parameters net >>= λ _.
                  with_cas (λ c. record c { setting_up = false }))
                w2)
      parsed _ w2 (good_database body r e l) q2 =
          Lands-lift (parse_open_database body) r w2 _ e (establish ps r w2 h q2 l)

  negotiate-Lands :
      (config : CasConfig) (ps : List SessionParameter) (b : Bool) (w : World)
      → Storable ps
      → IsDialling from (ps, b) w
      → Lands (λ _. IsOpen from) (negotiate net config w)
  unfolding negotiate
  negotiate-Lands config ps b w h q =
      Lands-lift (write_client_info_exchange config.ssl) _ w _
        (write_client_info_exchange_lem config.ssl)
        (Lands-bind (await_bytes net ask_port w) _
          (await_bytes-Lands ask_port (ps, b) w q healthy.port port_answers)
          (λ port_data w1 a. parsed port_data w1 a.0 a.1))
    where
      parsed :
          (port_data : List ℕ) (w1 : World)
          → GoodPort (received port_data)
          → IsDialling from (ps, b) w1
          → Lands
              (λ _. IsOpen from)
              ((lift (parse_client_info_exchange port_data) >>= λ port. redirected net port >>= λ _.
                  with_cas (λ c. record c { has_socket = true }) >>= λ _.
                  upgrade net config.ssl >>= λ _.
                  lift (write_open_database config.database config.user config.password) >>= λ _.
                  await_bytes net ask_database >>= λ body. lift (parse_open_database body) >>= λ r.
                  with_cas (opened r) >>= λ _. apply_session_parameters net >>= λ _.
                  with_cas (λ c. record c { setting_up = false }))
                w1)
      parsed _ w1 (good_port bytes n e) q1 =
          Lands-lift (parse_client_info_exchange bytes) (pos n) w1 _ e (
            Lands-bind (redirected net (pos n) w1) _ (redirected-Lands n (ps, b) w1 q1) (λ _ w2 q2.
              log_in config ps (record w2 { cas = record w2.cas { has_socket = true } }) h
                (record { awake = q2.awake; kept = ap (λ x. (x.0, true)) q2.kept })))

  guarded-Lands :
      (s : Step (Unit {0})) → Lands (λ _. IsOpen from) s → Lands (λ _. IsOpen from) (guarded s)
  guarded-Lands _ (lands u w o) =
      lands u _
        (record { socket = o.socket; connected = o.connected; four = o.four; awake = o.awake })

  pub handshake-Lands :
      (config : CasConfig) (w : World)
      → Storable w.cas.session_parameters
      → w.cas.connected ≡ false
      → from ≤ w.clock
      → Lands (λ _. IsOpen from) (handshake net config w)
  unfolding handshake
  handshake-Lands config w h c k = Lands-else w.cas.connected (returned tt w) _ c (
      Lands-bind (create_socket net (handshaking w)) (λ _ w'. guarded (negotiate net config w'))
        (create_socket-Lands (w.cas.session_parameters, w.cas.has_socket) (handshaking w)
          (record { awake = k; kept = refl }))
        (λ _ w' q.
          guarded-Lands (negotiate net config w')
            (negotiate-Lands config w.cas.session_parameters w.cas.has_socket w' h q)))
