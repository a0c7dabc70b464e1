-- ===== src/Session/Opened.antt =====
-- What handshakeUnlocked leaves behind.
use cubrid_client.Base.{ℕ, ◌+◌, ◌≡◌, refl, subst, ap, ◌∙◌, true, false, List}
use cubrid_client.Request.{write_client_info_exchange, write_open_database}
use cubrid_client.Reply.Open.{OpenDatabaseResult, parse_client_info_exchange, parse_open_database}
use cubrid_client.Session.World.{
  SessionParameter, Cas, Sent, World, ask_port, ask_database, Network, Step, returned, raised, Act,
  then_do, lift, with_cas, tick, await_bytes,
}
use cubrid_client.Session.Opening.{
  CasConfig, apply_session_parameters, redirected, upgrade, opened, negotiate,
}
use cubrid_client.Session.Quiet.{world_of}
use cubrid_client.Session.Steady.{
  Shape, shape, shape_of, idle_of, IsSteady, IsSteady-lift, await_bytes-IsSteady,
  redirected-IsSteady, upgrade-IsSteady, apply_session_parameters-IsSteady,
}
use cubrid_client.Session.Settled.{
  Settled, Yields, yields, fails, Yields-then, apply_session_parameters-Settled,
}

-- A method that leaves the state and the wire alone, and what follows it.
Yields-bind {ℓ} :
    {A : Type ℓ} {R : World → Type 0} (w : World) (m : Act A) (f : A → Act (Unit {0}))
    → IsSteady idle_of m
    → ((a : A) (w' : World) → idle_of w' ≡ idle_of w → Yields R (f a w'))
    → Yields R (then_do (m w) f)
Yields-bind {A} {R} w m f h k = go (m w) (h.at w)
  where
    go : (s : Step A) → idle_of (world_of s) ≡ idle_of w → Yields R (then_do s f)
    go (returned a w') e = k a w' e
    go (raised t w') e = fails t w'

-- The session `g` that a handshake opens with the parameters `ps`, and the wire `s` before it.
pub record IsOpened (net : Network) (g : ℕ) (ps : List SessionParameter) (s : List Sent) (w : World)
    : Type 0 where
  pub shape : shape_of w ≡ record {
    has_socket = true;
    connected = true;
    setting_up = false;
    generation = g;
    session_parameters = ps;
  }
  pub settled : Settled net g ps s w.sent

-- What the settings ask of the world in which they begin.
Yields-shape :
    {Q : World → Type 0} (x : Shape) (s : Step (Unit {0}))
    → Yields Q s
    → shape_of (world_of s) ≡ x
    → Yields (λ w. Q w × (shape_of w ≡ x)) s
Yields-shape x _ (yields w q) e = yields w (q, e)
Yields-shape x _ (fails t w) e = fails t w

abbrev set_up : Shape → Shape
set_up x = record x { setting_up = false }

module _ (net : Network) where
  -- The last steps, from the state in which OpenDatabase has answered.
  complete_session :
      (r : OpenDatabaseResult) (w : World)
      → w.cas.has_socket ≡ true
      → Yields (IsOpened net (w.cas.generation + 1) w.cas.session_parameters w.sent) (
          then_do
            (apply_session_parameters net (record w { cas = opened r w.cas }))
            (λ _. with_cas (λ c. record c { setting_up = false })))
  complete_session r w e =
      Yields-then (apply_session_parameters net (record w { cas = opened r w.cas }))
        (λ _. with_cas (λ c. record c { setting_up = false }))
        (Yields-shape (shape_of (record w { cas = opened r w.cas }))
          (apply_session_parameters net (record w { cas = opened r w.cas }))
          (apply_session_parameters-Settled net (w.cas.generation + 1)
            (record w { cas = opened r w.cas }) refl)
          ((apply_session_parameters-IsSteady net).at (record w { cas = opened r w.cas })))
        (λ v q. yields _ (record {
          shape =
              ap set_up q.1
              ∙ ap (λ b. set_up (shape (record (opened r w.cas) { has_socket = b }))) e;
          settled = q.0.wire;
        }))

  complete_from :
      (c : Cas) (s : List Sent) (r : OpenDatabaseResult) (w : World)
      → idle_of w ≡ (record c { has_socket = true }, s)
      → Yields (IsOpened net (c.generation + 1) c.session_parameters s) (
          then_do
            (apply_session_parameters net (record w { cas = opened r w.cas }))
            (λ _. with_cas (λ c. record c { setting_up = false })))
  complete_from c s r w e =
      subst
        (λ x. Yields (IsOpened net (x.0.generation + 1) x.0.session_parameters x.1) (
          then_do (apply_session_parameters net (record w { cas = opened r w.cas }))
            (λ _. with_cas (λ c. record c { setting_up = false }))))
        e (complete_session r w (ap (λ x. x.0.has_socket) e))

  still : (w : World) → idle_of (tick w) ≡ idle_of w
  still w = refl

  pub negotiate-IsOpened :
      (config : CasConfig) (w : World)
      → Yields
          (IsOpened net (w.cas.generation + 1) w.cas.session_parameters w.sent)
          (negotiate net config w)
  unfolding negotiate
  negotiate-IsOpened config w =
      Yields-bind w (lift (write_client_info_exchange config.ssl)) _
        (IsSteady-lift (write_client_info_exchange config.ssl))
        (λ _ w1 e1.
          Yields-bind w1 (await_bytes net ask_port) _
            (await_bytes-IsSteady idle_of still net ask_port)
            (λ port_data w2 e2.
              Yields-bind w2 (lift (parse_client_info_exchange port_data)) _
                (IsSteady-lift (parse_client_info_exchange port_data))
                (λ port w3 e3.
                  Yields-bind w3 (redirected net port) _
                    (redirected-IsSteady idle_of still net port)
                    (λ _ w4 e4.
                      Yields-bind (record w4 { cas = record w4.cas { has_socket = true } })
                        (upgrade net config.ssl) _ (upgrade-IsSteady idle_of still net config.ssl)
                        (λ _ w5 e5.
                          Yields-bind w5
                            (lift (write_open_database config.database config.user config.password))
                            _
                            (IsSteady-lift
                              (write_open_database config.database config.user config.password))
                            (λ _ w6 e6.
                              Yields-bind w6 (await_bytes net ask_database) _
                                (await_bytes-IsSteady idle_of still net ask_database)
                                (λ body w7 e7.
                                  Yields-bind w7 (lift (parse_open_database body)) _
                                    (IsSteady-lift (parse_open_database body))
                                    (λ r w8 e8. complete_from w.cas w.sent r w8 (
                                      e8
                                      ∙ e7
                                      ∙ e6
                                      ∙ e5
                                      ∙ ap (λ x. (record x.0 { has_socket = true }, x.1))
                                          (e4 ∙ e3 ∙ e2 ∙ e1))))))))))
