-- ===== src/Session/Connect.antt =====
-- Where connectUnlocked ends, with its retries.
use cubrid_client.Base.{
  ℕ, zero, suc, ◌+◌, ◌≡◌, ◌⊎◌, inl, inr, refl, subst, ap, ◌∙◌, Bool, true, false, if◌then◌else◌,
}
use cubrid_client.Errors.{
  Thrown, failure, connection_lost, stream_busy, read_timeout, socket_refused, caused, mapped,
  foreign,
}
use cubrid_client.Session.World.{
  World, Network, Step, returned, raised, Act, then_do, tick, create_socket,
}
use cubrid_client.Session.Opening.{
  CasConfig, negotiate, guarded, handshaking, handshake, unless_refused, connect_retrying,
  connect_unlocked,
}
use cubrid_client.Session.Quiet.{Quiet, world_of, Quiet-refl, Quiet-trans}
use cubrid_client.Session.Control.{handshake-IsQuiet}
use cubrid_client.Session.Steady.{shape_of}
use cubrid_client.Session.Settled.{Yields, yields, fails}
use cubrid_client.Session.Opened.{IsOpened, negotiate-IsOpened}

-- Where connecting ends that starts in the world `w`. It is a session already; or the last attempt
-- began in a world `v`, after which nothing but control requests of failed attempts had gone out,
-- and opened a new session with exactly its settings on the wire; or no session is left.
pub data Connection (net : Network) (w : World) : Step (Unit {0}) → Type 0 where
  already : w.cas.connected ≡ true → Connection net w (returned tt w)
  opened_new :
      (v w' : World)
      → w.cas.connected ≡ false
      → Quiet w v
      → IsOpened net (v.cas.generation + 1) w.cas.session_parameters v.sent w'
      → Connection net w (returned tt w')
  closed :
      (e : Thrown) (w' : World)
      → w.cas.connected ≡ false
      → Quiet w w'
      → w'.cas.connected ≡ false
      → (shape_of w' ≡ shape_of w) ⊎ (w'.cas.setting_up ≡ false)
      → Connection net w (raised e w')

module _ (net : Network) (config : CasConfig) where
  guarded-Connection :
      (w : World)
      → w.cas.connected ≡ false
      → (s : Step (Unit {0})) → Quiet w (world_of (guarded s))
      → Yields (IsOpened net (w.cas.generation + 1) w.cas.session_parameters w.sent) s
      → Connection net w (guarded s)
  guarded-Connection w c _ u (yields w' q) =
      opened_new w _ c (Quiet-refl w) (record { shape = q.shape; settled = q.settled })
  guarded-Connection w c _ u (fails e w') = closed e _ c u refl (inr refl)

  abbrev dial : Bool → World → Step (Unit {0})
  dial b w = if b then returned tt (tick w) else raised socket_refused (tick w)

  handshake-Connection : (w : World) → Connection net w (handshake net config w)
  unfolding handshake create_socket
  handshake-Connection w = go w.cas.connected refl ((handshake-IsQuiet net config).at w)
    where
      dialled :
          w.cas.connected ≡ false
          → (b : Bool)
          → Quiet w (
              world_of
                (then_do (dial b (handshaking w)) (λ _ w'. guarded (negotiate net config w'))))
          → Connection net w
              (then_do (dial b (handshaking w)) (λ _ w'. guarded (negotiate net config w')))
      dialled c true u =
          guarded-Connection w c _ u (negotiate-IsOpened net config (tick (handshaking w)))
      dialled c false u = closed _ _ c u c (inl refl)

      go :
          (b : Bool)
          → w.cas.connected ≡ b
          → Quiet w (
              world_of (
                if b
                then returned tt w
                else then_do
                    (create_socket net (handshaking w))
                    (λ _ w'. guarded (negotiate net config w'))))
          → Connection net w (
              if b
              then returned tt w
              else then_do
                  (create_socket net (handshaking w))
                  (λ _ w'. guarded (negotiate net config w')))
      go true c u = already c
      go false c u = dialled c (net.opens w.clock) u

  -- Another attempt, after one that left no session.
  after-Connection :
      (w v : World) (s : Step (Unit {0}))
      → w.cas.connected ≡ false
      → v.cas.connected ≡ false
      → Quiet w v
      → (shape_of v ≡ shape_of w) ⊎ (v.cas.setting_up ≡ false)
      → Connection net v s
      → Connection net w s
  after-Connection w v _ c d q k (already e) = absurd (cc (d, e))
  after-Connection w v _ c d q k (opened_new u w' e r o) =
      opened_new u w' c (Quiet-trans q r)
        (subst (λ ps. IsOpened net (u.cas.generation + 1) ps u.sent w') q.parameters o)
  after-Connection w v _ c d q k (closed t w' e r x (inr y)) =
      closed t w' c (Quiet-trans q r) x (inr y)
  after-Connection w v _ c d q (inl k) (closed t w' e r x (inl y)) =
      closed t w' c (Quiet-trans q r) x (inl (y ∙ k))
  after-Connection w v _ c d q (inr k) (closed t w' e r x (inl y)) =
      closed t w' c (Quiet-trans q r) x (inr (ap (λ z. z.setting_up) y ∙ k))

  retried-Connection :
      (w : World) (s : Step (Unit {0})) (again : Act (Unit {0}))
      → Connection net w s
      → ((v : World) → Connection net v (again v))
      → Connection net w (unless_refused s again)
  retried-Connection w _ again (already c) h = already c
  retried-Connection w _ again (opened_new v w' c q o) h = opened_new v w' c q o
  retried-Connection w _ again (closed socket_refused w' c q x y) h =
      after-Connection w w' (again w') c x q y (h w')
  retried-Connection w _ again (closed (failure t) w' c q x y) h = closed _ w' c q x y
  retried-Connection w _ again (closed connection_lost w' c q x y) h = closed _ w' c q x y
  retried-Connection w _ again (closed stream_busy w' c q x y) h = closed _ w' c q x y
  retried-Connection w _ again (closed read_timeout w' c q x y) h = closed _ w' c q x y
  retried-Connection w _ again (closed (caused t) w' c q x y) h = closed _ w' c q x y
  retried-Connection w _ again (closed (mapped k d t) w' c q x y) h = closed _ w' c q x y
  retried-Connection w _ again (closed foreign w' c q x y) h = closed _ w' c q x y

  connect_retrying-Connection :
      (n : ℕ) (w : World) → Connection net w (connect_retrying net config n w)
  unfolding connect_retrying
  connect_retrying-Connection zero w = handshake-Connection w
  connect_retrying-Connection (suc n) w =
      retried-Connection w (handshake net config w) (connect_retrying net config n)
        (handshake-Connection w) (connect_retrying-Connection n)

  -- Connecting either returns with a session or leaves none, and sends control requests only. A new
  -- session has a generation of its own, and before it is handed out the wire carries on it exactly
  -- the session parameters, in order, and after them, if there are any, one CHECK_CAS; the server has
  -- accepted each of these requests.
  pub connect_unlocked-Connection : (w : World) → Connection net w (connect_unlocked net config w)
  unfolding connect_unlocked
  connect_unlocked-Connection w = connect_retrying-Connection config.max_connection_retry_count w
