-- ===== src/Session/Recovery.antt =====
-- Connecting on a network that refuses at first and then recovers.
use cubrid_client.Base.{ℕ, zero, suc, ◌+◌, ◌≤◌, ◌<◌, ◌≡◌, sym, subst, ap, ◌∙◌, arith, false}
use cubrid_client.Errors.{socket_refused}
use cubrid_client.Session.World.{
  World, Network, Step, returned, raised, Act, then_do, tick, create_socket,
}
use cubrid_client.Session.Opening.{
  CasConfig, negotiate, guarded, handshaking, handshake, unless_refused, connect_retrying,
  connect_unlocked,
}
use cubrid_client.Session.Live.{IsHealthy, Storable, Lands, lands, IsOpen}
use cubrid_client.Session.Establish.{if_else, handshake-Lands}

-- A first attempt that the network refuses takes one tick, and changes no more than that.
handshake_refused :
    (net : Network) (config : CasConfig) (w : World)
    → w.cas.connected ≡ false
    → net.opens w.clock ≡ false
    → handshake net config w ≡ raised socket_refused (tick (handshaking w))
unfolding handshake create_socket
handshake_refused net config w c o =
    if_else w.cas.connected (returned tt w) _ c
    ∙ ap (λ (s : Step (Unit {0})). then_do s (λ _ w'. guarded (negotiate net config w')))
        (if_else (net.opens w.clock) _ _ o)

unless_refused-Lands :
    {Q : Unit {0} → World → Type 0} (s : Step (Unit {0})) (again : Act (Unit {0}))
    → Lands Q s
    → Lands Q (unless_refused s again)
unless_refused-Lands _ again (lands u w q) = lands u w q

connect_retrying-Lands :
    (net : Network) (config : CasConfig) (n k : ℕ) (w : World)
    → w.cas.connected ≡ false
    → Storable w.cas.session_parameters
    → k ≤ n
    → ((d : ℕ) → d < k → net.opens (w.clock + d) ≡ false)
    → IsHealthy net (w.clock + k)
    → Lands (λ _. IsOpen (w.clock + k)) (connect_retrying net config n w)
unfolding connect_retrying
connect_retrying-Lands net config zero zero w c h l r v =
    handshake-Lands net (w.clock + 0) v config w h c (omega arith)
connect_retrying-Lands net config (suc n) zero w c h l r v =
    unless_refused-Lands (handshake net config w) _
      (handshake-Lands net (w.clock + 0) v config w h c (omega arith))
connect_retrying-Lands net config zero (suc k) w c h l r v = absurd (omega (arith, l))
connect_retrying-Lands net config (suc n) (suc k) w c h l r v =
    subst
      (λ s.
        Lands (λ _. IsOpen (w.clock + suc k)) (unless_refused s (connect_retrying net config n)))
      (sym (
        handshake_refused net config w c
          (subst (λ t. net.opens t ≡ false) (omega arith) (r 0 (omega arith)))))
      (subst (λ t. Lands (λ _. IsOpen t) (connect_retrying net config n (tick (handshaking w))))
        (omega arith)
        (connect_retrying-Lands net config n k (tick (handshaking w)) c h (omega (arith, l))
          (λ d e. subst (λ t. net.opens t ≡ false) (omega arith) (r (d + 1) (omega (arith, e))))
          (subst (IsHealthy net) (omega arith) v)))

-- Connecting gets through an outage that is not longer than its retries. If the network refuses the
-- first `k` TCP connections, `k` is at most the retries that the configuration allows, and from then
-- on the broker and the server answer as they should, connecting returns, and there is a session:
-- connected, with its socket and four bytes of CAS_INFO. The parameters must fit into four bytes.
pub connect_unlocked-Lands :
    (net : Network) (config : CasConfig) (k : ℕ) (w : World)
    → w.cas.connected ≡ false
    → Storable w.cas.session_parameters
    → k ≤ config.max_connection_retry_count
    → ((d : ℕ) → d < k → net.opens (w.clock + d) ≡ false)
    → IsHealthy net (w.clock + k)
    → Lands (λ _. IsOpen (w.clock + k)) (connect_unlocked net config w)
unfolding connect_unlocked
connect_unlocked-Lands net config k w c h l r v =
    connect_retrying-Lands net config config.max_connection_retry_count k w c h l r v
