-- ===== src/Session/Sound.antt =====
-- The methods of a connection (src/protocol/connection.ts) under its invariant.
use cubrid_client.Base.{
  ℕ, inl, inr, refl, ap, arith, Bool, true, false, not, ◌&&◌, ◌||◌, ◌==◌, List, some, none,
}
use cubrid_client.Request.{Frame, write_check_cas, write_get_db_version}
use cubrid_client.Reply.Simple.{parse_check_cas, parse_get_db_version}
use cubrid_client.Session.World.{
  SessionParameter, World, Network, Step, returned, raised, Act, ◌>>=◌, ◌>>◌, give, raise, rescue,
  with_cas, retired,
}
use cubrid_client.Session.Opening.{
  CasConfig, apply_session_parameters, check_cas_now, connect_unlocked,
}
use cubrid_client.Session.Exchange.{
  probe_cas, needs_probe, after_probe, verify_session, exchange_unlocked, ensure_session,
  send_and_recv, on_session, resettle, set_session_parameters, close, confirm, ping,
}
use cubrid_client.Session.Quiet.{Quiet, world_of}
use cubrid_client.Session.Control.{
  apply_session_parameters-IsQuiet, check_cas_now-IsQuiet, connect_unlocked-IsQuiet,
}
use cubrid_client.Session.Steady.{apply_session_parameters-IsSteady, check_cas_now-IsSteady}
use cubrid_client.Session.Connect.{
  Connection, already, opened_new, closed, connect_unlocked-Connection,
}
use cubrid_client.Session.Outcome.{Exchanged, replied_to, lost, exchange_unlocked-Exchanged}
use cubrid_client.Session.Safe.{
  IsSound, IsSafe, Safe-then, IsSafe-bind, IsSafe-give, IsSafe-raise, IsSafe-lift, get_cas-IsSafe,
  Safe-rescue, Safe-if, retired-IsSafe, renewed-IsSafe, Sound-Quiet, Sound-steady, Sound-of,
}

module _ (net : Network) where
  apply_session_parameters-IsSafe : IsSafe (apply_session_parameters net)
  apply_session_parameters-IsSafe = record {
    at = λ w q.
        Sound-steady w _ q ((apply_session_parameters-IsQuiet net).at w)
          ((apply_session_parameters-IsSteady net).at w);
  }

  probe_cas-IsSafe : IsSafe (probe_cas net)
  unfolding probe_cas
  probe_cas-IsSafe = record {
    at = λ w q.
        go (check_cas_now net w) (
          Sound-steady w _ q ((check_cas_now-IsQuiet net).at w)
            ((check_cas_now-IsSteady net).at w));
  }
    where
      go :
          (s : Step (Unit {0}))
          → IsSound (world_of s)
          → IsSound (
              world_of (elim s as (λ _. Step Bool) [
                | returned u w' ↦ returned true w'
                | raised e w' ↦ returned false w'
              ]))
      go (returned u w') q = q
      go (raised e w') q = q

  pub exchange_unlocked-IsSafe :
      (f : Frame) (unknown : Bool) → IsSafe (exchange_unlocked net f unknown)
  exchange_unlocked-IsSafe f unknown = record {
    at = λ w q.
        go w q (exchange_unlocked net f unknown w) (exchange_unlocked-Exchanged net f unknown w);
  }
    where
      go :
          (w : World)
          → IsSound w
          → (s : Step (List ℕ)) → Exchanged net f unknown w s
          → IsSound (world_of s)
      go w q _ (replied_to body w' a b c) =
          Sound-of w' _ _ c b q.socket q.over (omega arith, q.order)
      go w q _ (lost e w' (inl b) c) = Sound-of w' _ _ c b refl q.over q.order
      go w q _ (lost e w' (inr b) c) = Sound-of w' _ _ c b refl q.over (omega arith, q.order)

  pub on_session-IsSafe :
      (generation : ℕ) (f : Frame) (unknown : Bool) → IsSafe (on_session net generation f unknown)
  unfolding on_session
  on_session-IsSafe generation f unknown = record {
    at = λ w q.
        Safe-if (w.cas.connected && w.cas.generation == generation) _ (returned none w)
          ((IsSafe-bind (exchange_unlocked-IsSafe f unknown) (λ body. IsSafe-give (some body))).at w
            q)
          q;
  }

  resettle-IsSafe : (generation : ℕ) → IsSafe (resettle net generation)
  unfolding resettle
  resettle-IsSafe generation = record {
    at = λ w q.
        Safe-if (not w.cas.connected || not (w.cas.generation == generation)) (returned tt w) _ q (
          Safe-rescue (apply_session_parameters net w) (λ e. do with_cas retired; raise e)
            (apply_session_parameters-IsSafe.at w q)
            (λ e. IsSafe-bind retired-IsSafe (λ _. IsSafe-raise e)));
  }

module _ (net : Network) (config : CasConfig) where
  connect_unlocked-IsSafe : IsSafe (connect_unlocked net config)
  connect_unlocked-IsSafe = record {
    at = λ w q.
        go w q (connect_unlocked net config w) ((connect_unlocked-IsQuiet net config).at w)
          (connect_unlocked-Connection net config w);
  }
    where
      go :
          (w : World)
          → IsSound w
          → (s : Step (Unit {0})) → Quiet w (world_of s)
          → Connection net w s
          → IsSound (world_of s)
      go w q _ u (already c) = q
      go w q _ u (opened_new v w' c r o) =
          Sound-Quiet w w' q u (ap (λ x. x.connected && not x.has_socket) o.shape)
            (ap (λ x. x.setting_up) o.shape)
      go w q _ u (closed e w' c r x (inl y)) = Sound-steady w w' q u y
      go w q _ u (closed e w' c r x (inr y)) = Sound-Quiet w w' q u (rw x refl) y

  after_probe-IsSafe : (b : Bool) → IsSafe (after_probe net config b)
  after_probe-IsSafe true = record {
    at = λ w q. record { socket = q.socket; over = q.over; order = q.order };
  }
  after_probe-IsSafe false = IsSafe-bind retired-IsSafe (λ _. connect_unlocked-IsSafe)

  verify_session-IsSafe : IsSafe (verify_session net config)
  unfolding verify_session
  verify_session-IsSafe = record {
    at = λ w q.
        Safe-if (needs_probe w.cas) ((probe_cas net >>= after_probe net config) w) (returned tt w)
          ((IsSafe-bind (probe_cas-IsSafe net) after_probe-IsSafe).at w q) q;
  }

  pub ensure_session-IsSafe : IsSafe (ensure_session net config)
  unfolding ensure_session
  ensure_session-IsSafe = IsSafe-bind verify_session-IsSafe (λ _. connect_unlocked-IsSafe)

  pub send_and_recv-IsSafe : (f : Frame) → IsSafe (send_and_recv net config f)
  unfolding send_and_recv
  send_and_recv-IsSafe f =
      IsSafe-bind verify_session-IsSafe (λ _. exchange_unlocked-IsSafe net f true)

  pub set_session_parameters-IsSafe :
      (ps : List SessionParameter) → IsSafe (set_session_parameters net config ps)
  unfolding set_session_parameters
  set_session_parameters-IsSafe ps = IsSafe-bind (renewed-IsSafe ps) (λ _.
      get_cas-IsSafe
        (λ c. IsSafe-bind verify_session-IsSafe (λ _. resettle-IsSafe net c.generation)))

  confirm-IsSafe : (b : Bool) → IsSafe (confirm net config b)
  unfolding confirm
  confirm-IsSafe false = IsSafe-give tt
  confirm-IsSafe true = get_cas-IsSafe (λ c.
      IsSafe-bind (IsSafe-lift (write_check_cas c.cas_info)) (λ f.
        IsSafe-bind (send_and_recv-IsSafe f) (λ payload. IsSafe-lift (parse_check_cas payload))))

  pub ping-IsSafe : (b : Bool) → IsSafe (ping net config b)
  unfolding ping
  ping-IsSafe b = IsSafe-bind (confirm-IsSafe b) (λ _. get_cas-IsSafe (λ c.
      IsSafe-bind (IsSafe-lift (write_get_db_version (not b) c.cas_info)) (λ f.
        IsSafe-bind (send_and_recv-IsSafe f)
          (λ payload. IsSafe-lift (parse_get_db_version payload)))))

pub close-IsSafe : (hook : Act (Unit {0})) → IsSafe hook → IsSafe (close hook)
unfolding close
close-IsSafe hook h = record {
  at = λ w q.
      Safe-if w.cas.has_socket _ (returned tt w)
        (Safe-then (rescue (hook w) (λ e. give tt)) (λ _. with_cas retired)
          (Safe-rescue (hook w) (λ e. give tt) (h.at w q) (λ e. IsSafe-give tt))
          (λ _. retired-IsSafe))
        q;
}
